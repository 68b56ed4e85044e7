-- ===== src/Memory/Listing.antt =====
-- core/src/memory.rs: what `list` returns.
use memoria_mcp.Prelude.{
  ℕ, zero, suc, ◌≡◌, ◌≢◌, ◌≤◌, ◌⊎◌, inl, inr, ap, sym, subst, String, Bool, true, false, not, ◌&&◌,
  Option, none, some, List, [], ◌∷◌, All, All-mono, All-take, any, retain, take, drop, length,
  length-take, if◌then◌else◌, Result, ok, err, map_err-eq-ok, Result-cases, Option-cases,
  Bool-cases, arith, ◌==◌, eq_iff,
}
use memoria_mcp.Prelude.Exec.{>>=-eq-ok}
use memoria_mcp.Map.{Map}
use memoria_mcp.Store.{VectorRecord, VectorStoreError, matches, usize_max}
use memoria_mcp.Store.Contract.{Contract}
use memoria_mcp.Filter.{FilterExpr}
use memoria_mcp.Error.{CoreError, from_store}
use memoria_mcp.Memory.{World, Env, store_read, has_scope_id, is_entity_record, is_expired, today}
use memoria_mcp.Memory.Search.{passes_filters}
use memoria_mcp.Memory.Records.{survives, list_ids, list}

module _ {A : Type 0} where
  All-drop : (P : A → Type 0) (n : ℕ) (xs : List A) → All P xs → All P (drop n xs)
  All-drop P zero xs h = h
  All-drop P (suc n) [] h = tt
  All-drop P (suc n) (x ∷ xs) h = All-drop P n xs h.1

  -- What is kept passes the test, and was there.
  All-retain :
      (P : A → Type 0) (p : A → Bool) (xs : List A)
      → All P xs
      → All (λ x. P x × (p x ≡ true)) (retain p xs)
  All-retain P p [] h = tt
  All-retain P p (x ∷ xs) h = elim (Bool-cases (p x)) [
    | inl kept ↦ rw kept ((h.0, kept), All-retain P p xs h.1)
    | inr dropped ↦ rw dropped (All-retain P p xs h.1)
  ]

-- Every text of a list is among its texts.
All-among :
    (xs ys : List String)
    → ((x : String) → any (λ i. i == x) xs ≡ true → any (λ i. i == x) ys ≡ true)
    → All (λ x. any (λ i. i == x) ys ≡ true) xs
All-among [] ys h = tt
All-among (x ∷ xs) ys h =
    (h x (ground (arith, eq_iff x x)), All-among xs ys (λ z e. h z (ground arith)))

passed :
    (entity matching shown expired fits : Bool)
    → (not entity && (matching && ((if shown then true else not expired) && fits))) ≡ true
    → (entity ≡ false) × (matching ≡ true) × ((shown ≡ true) ⊎ (expired ≡ false)) × (fits ≡ true)
passed entity matching shown expired fits h = ground arith

module _ {F G S : Type 0} (env : Env F G S) (scope : Map String) (show_expired : Bool)
    (filters : Option (FilterExpr G)) where
  -- A stored record of the scope that is none of an entity, has not expired unless that is asked for, and
  -- passes the filters; or a record that the store failed to read.
  abbrev pub IsListed : S → String → Type 0
  IsListed s id =
      ((e : VectorStoreError) × (env.vector_store.get id s ≡ err e))
      ⊎ ((r : VectorRecord F) × (env.vector_store.get id s ≡ ok (some r))
          × (is_entity_record r.payload ≡ false)
          × (matches scope r.payload ≡ true)
          × ((show_expired ≡ true) ⊎ (is_expired r.payload (today env) ≡ false))
          × (passes_filters env filters r.payload ≡ true))

  survives-IsListed :
      (s : S) (id : String)
      → env.vector_store.get id s ≢ ok none
      → survives env s (some scope) show_expired filters id ≡ true
      → IsListed s id
  unfolding survives
  survives-IsListed s id stored kept = elim (Result-cases (env.vector_store.get id s)) [
    | inr (e, failed) ↦ inl (e, failed)
    | inl (found, read) ↦ elim (Option-cases found) [
      | inl absent ↦ absurd (stored (cc (read, absent)))
      | inr (r, present) ↦
          let (no_entity, matching, shown, fits) =
            passed (is_entity_record r.payload) (matches scope r.payload) show_expired
              (is_expired r.payload (today env)) (passes_filters env filters r.payload)
              (rw present at (rw (read, survives) at kept)) in
          inr (r, cc (read, present), no_entity, matching, shown, fits)
    ]
  ]

  module _ (Holds Fits : S → Type 0) (contract : Contract env.vector_store Holds Fits) where
    page : ℕ → ℕ → List String → S → List String
    page offset limit all_ids s =
        take limit (drop offset (retain (survives env s (some scope) show_expired filters) all_ids))

    the_ids : (a b : List String) → ◌≡◌ {A = Result CoreError (List String)} (ok a) (ok b) → a ≡ b
    the_ids a b e = cc

    page_lem :
        (offset limit : ℕ) (s : S) (all_ids : List String)
        → Holds s
        → Fits s
        → env.vector_store.list 0 usize_max s ≡ ok all_ids
        → (length (page offset limit all_ids s) ≤ limit)
          × All (IsListed s) (page offset limit all_ids s)
    unfolding page
    page_lem offset limit s all_ids h fits listed =
        let kept = survives env s (some scope) show_expired filters in
        let stored : All (λ x. env.vector_store.get x s ≢ ok none) all_ids =
          All-mono (λ x. any (λ i. i == x) all_ids ≡ true) (λ x. env.vector_store.get x s ≢ ok none)
            all_ids (λ x among. (contract.list_complete s all_ids x h fits listed).0 among)
            (All-among all_ids all_ids (λ x among. among)) in
        let fine : All (IsListed s) (retain kept all_ids) =
          All-mono (λ x. (env.vector_store.get x s ≢ ok none) × (kept x ≡ true)) (IsListed s)
            (retain kept all_ids) (λ x both. survives-IsListed s x both.0 both.1)
            (All-retain (λ x. env.vector_store.get x s ≢ ok none) kept all_ids stored) in
        (
          omega (arith, length-take limit (drop offset (retain kept all_ids))),
          All-take (IsListed s) limit (drop offset (retain kept all_ids))
              (All-drop (IsListed s) offset (retain kept all_ids) fine),
        )

    -- A listing that succeeds was asked for within a scope, changes nothing, and returns at most `limit` ids.
    -- Each of them is that of a record of the scope that it may show, or one whose record the store fails to
    -- read: such an id is listed, whatever its scope.
    pub list_lem :
        (offset limit : ℕ) (w w' : World S) (ids : List String)
        → Holds w.store
        → Fits w.store
        → list env scope offset limit show_expired filters w ≡ (ok ids, w')
        → (w' ≡ w) × (has_scope_id scope ≡ true) × (length ids ≤ limit) × All (IsListed w.store) ids
    unfolding list list_ids store_read page
    list_lem offset limit w w' ids h fits e = elim (Bool-cases (has_scope_id scope)) [
      | inr unscoped ↦
          absurd (cc (ap (λ (t : Result _ (List String) × World S). t.0) (rw unscoped at e)))
      | inl scoped ↦
          let (all_ids, got, e') =
            >>=-eq-ok (store_read (env.vector_store.list 0 usize_max)) _ w (rw scoped at e) in
          let listed = map_err-eq-ok from_store _ got in
          let shown = page offset limit all_ids in
          let same : shown w.store ≡ ids =
            the_ids _ ids (ap (λ (t : Result _ (List String) × World S). t.0) e') in
          let (few, fine) = page_lem offset limit w.store all_ids h fits listed in
          (
            sym (ap (λ (t : Result _ (List String) × World S). t.1) e'),
            scoped,
            subst (λ l. length l ≤ limit) same few,
            subst (All (IsListed w.store)) same fine,
          )
    ]
