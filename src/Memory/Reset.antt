-- ===== src/Memory/Reset.antt =====
-- core/src/memory.rs: `reset` deletes exactly the records that match.
use memoria_mcp.Prelude.{
  ℕ, ◌+◌, ◌≤◌, ◌≡◌, ap, String, Bool, false, ◌&&◌, Option, none, some, List, [], ◌∷◌, any,
  if◌then◌else◌, Result, ok, err, map_err-eq-ok, Bool-cases, Option-cases, inl, inr, arith, ◌==◌,
  eq_iff, ok_none-cases,
}
use memoria_mcp.Prelude.Exec.{>>=-eq-ok, run_lem}
use memoria_mcp.Map.{Map}
use memoria_mcp.Store.{VectorRecord, VectorStoreError, usize_max}
use memoria_mcp.Store.Contract.{Contract}
use memoria_mcp.Filter.{FilterExpr}
use memoria_mcp.Error.{from_store}
use memoria_mcp.Memory.{World, Env, store_read}
use memoria_mcp.Store.{matches}
use memoria_mcp.Memory.Search.{passes_filters}
use memoria_mcp.Memory.Records.{is_target, delete, reset_from, reset}
use memoria_mcp.Memory.Delete.{delete_lem}

module _ {F G S : Type 0} (env : Env F G S) (scope : Map String)
    (filters : Option (FilterExpr G)) where
  -- A stored record that matches the scope and passes the filters.
  abbrev pub is_targeted : Result VectorStoreError (Option (VectorRecord F)) → Bool
  is_targeted (err e) = false
  is_targeted (ok none) = false
  is_targeted (ok (some r)) = matches scope r.payload && passes_filters env filters r.payload

  module _ (Holds Fits : S → Type 0) (contract : Contract env.vector_store Holds Fits) where
    reset_from_lem :
        (ids : List String) (n m : ℕ) (w w' : World S)
        → Holds w.store
        → reset_from env scope filters ids n w ≡ (ok m, w')
        → ((j : String)
            → env.vector_store.get j w'.store ≡ (
                if any (λ i. i == j) ids && is_targeted (env.vector_store.get j w.store)
                then ok none
                else env.vector_store.get j w.store))
          × Holds w'.store
          × (n ≤ m)
    unfolding reset_from store_read
    reset_from_lem [] n m w w' h e =
        let same : w ≡ w' = ap (λ (t : Result _ ℕ × World S). t.1) e in
        ((λ j. rw (← same)), rw (← same) h, ground arith)
    reset_from_lem (id ∷ ids) n m w w' h e =
        let (found, got, e') = >>=-eq-ok (store_read (env.vector_store.get id)) _ w e in
        let read : env.vector_store.get id w.store ≡ ok found = map_err-eq-ok from_store _ got in
        elim (Option-cases found) [
          | inl absent ↦
              let (gone, h', count) = reset_from_lem ids n m w w' h (rw absent at e') in
              ((λ j. ground (arith, gone j, read, absent, eq_iff id j)), h', count)
          | inr (r, present) ↦ elim (Bool-cases (is_target env scope filters r)) [
            | inl hit ↦
                let (u, done, e'') = >>=-eq-ok (delete env id) _ w (rw hit at (rw present at e')) in
                let w₁ = (delete env id w).1 in
                let (found', read', cleared, entries, h₁) =
                  delete_lem env Holds Fits contract id w w₁ h
                    (run_lem (delete env id) w {r = ok u} done) in
                let (gone, h', count) = reset_from_lem ids (n + 1) m w₁ w' h₁ e'' in
                (
                  (λ j. ground (arith, gone j, cleared j, read, present, hit, eq_iff id j)),
                  h',
                  omega arith,
                )
            | inr miss ↦
                let (gone, h', count) =
                  reset_from_lem ids n m w w' h (rw miss at (rw present at e')) in
                ((λ j. ground (arith, gone j, read, present, miss, eq_iff id j)), h', count)
          ]
        ]

    -- A reset that succeeds deletes exactly the records that match the scope and pass the filters:
    -- every one of them is gone, and every other id reads as before.
    pub reset_lem :
        (n : ℕ) (w w' : World S) (j : String)
        → Holds w.store
        → Fits w.store
        → reset env scope filters w ≡ (ok n, w')
        → env.vector_store.get j w'.store ≡ (
            if is_targeted (env.vector_store.get j w.store)
            then ok none
            else env.vector_store.get j w.store)
    unfolding reset store_read
    reset_lem n w w' j h fits e =
        let (ids, got, e') = >>=-eq-ok (store_read (env.vector_store.list 0 usize_max)) _ w e in
        let listed = map_err-eq-ok from_store _ got in
        let (gone, h', count) = reset_from_lem ids 0 n w w' h e' in
        let (here, there) = contract.list_complete w.store ids j h fits listed in
        elim (ok_none-cases (env.vector_store.get j w.store)) [
          | inl unread ↦ ground (arith, gone j, unread)
          | inr readable ↦ ground (arith, gone j, there readable)
        ]
