-- ===== src/Memory/Delete.antt =====
-- core/src/memory.rs: what `delete` and `reset` remove, and what they leave.
use memoria_mcp.Prelude.{
  ◌≡◌, ap, ◌∙◌, refl, sym, String, Option, none, some, List, [], ◌∷◌, ◌++◌, if◌then◌else◌, Result,
  ok, map_err-eq-ok, arith, ◌==◌, eq_iff, ==_self,
}
use memoria_mcp.Prelude.Exec.{>>=-eq-ok}
use mathlib.Core.List.{append-nil}
use memoria_mcp.Map.{get}
use memoria_mcp.Map.Laws.{get-insert}
use memoria_mcp.Store.{VectorRecord}
use memoria_mcp.Store.Contract.{Contract}
use memoria_mcp.Error.{from_store}
use memoria_mcp.Memory.{World, Env, HistoryEntry, deleted, store_read, store_write, entries_of}
use memoria_mcp.Memory.Records.{push_history, content_of, record_deletion, delete}

module _ {F G S : Type 0} (env : Env F G S) (Holds Fits : S → Type 0)
    (contract : Contract env.vector_store Holds Fits) where
  -- What a deletion adds to the history of its record.
  abbrev pub entries_for : Option String → List HistoryEntry
  entries_for none = []
  entries_for (some content) = record { event = deleted; content = content } ∷ []

  -- The state after a deletion.
  abbrev pub after_delete : String → Option (VectorRecord F) → World S → World S
  after_delete id found w =
      (record_deletion env id (content_of env found)
        (record w { store = (env.vector_store.delete id w.store).1 })).1

  -- The content of the record that was deleted.
  abbrev pub removed_content : Option (VectorRecord F) → Option String
  removed_content none = none
  removed_content (some r) = get "content" r.payload

  delete-eq-ok :
      (id : String) (w w' : World S)
      → delete env id w ≡ (ok tt, w')
      → (found : Option (VectorRecord F)) × (env.vector_store.get id w.store ≡ ok found)
        × ((env.vector_store.delete id w.store).0 ≡ ok tt)
        × (w' ≡ after_delete id found w)
  unfolding delete store_read store_write
  delete-eq-ok id w w' h =
      let (found, read, h') = >>=-eq-ok (store_read (env.vector_store.get id)) _ w h in
      let (u, done, h'') = >>=-eq-ok (store_write (env.vector_store.delete id)) _ w h' in
      (
        found,
        map_err-eq-ok from_store _ read,
        map_err-eq-ok from_store _ done,
        sym (ap (λ (t : Result _ _ × World S). t.1) h''),
      )

  store-record_deletion :
      (id : String) (o : Option String) (w : World S)
      → (record_deletion env id o w).1.store ≡ w.store
  unfolding push_history
  store-record_deletion id none w = refl
  store-record_deletion id (some c) w = refl

  history-record_deletion :
      (id j : String) (o : Option String) (w : World S)
      → entries_of j (record_deletion env id o w).1.history
        ≡ (if id == j then entries_of j w.history ++ entries_for o else entries_of j w.history)
  unfolding push_history
  history-record_deletion id j none w = ground (arith, append-nil (entries_of j w.history))
  history-record_deletion id j (some c) w =
      let es = entries_of id w.history ++ entries_for (some c) in
      ground (arith, get-insert id j es w.history, eq_iff id j)

  -- A deletion that succeeds leaves no record under the id and every other record as it was, keeps the
  -- store's invariant, and adds to the history of the id one entry with the deleted content: none if
  -- there was no record or no content. Every other history stays.
  pub delete_lem :
      (id : String) (w w' : World S)
      → Holds w.store
      → delete env id w ≡ (ok tt, w')
      → (found : Option (VectorRecord F)) × (env.vector_store.get id w.store ≡ ok found)
        × ((j : String)
            → env.vector_store.get j w'.store
              ≡ (if id == j then ok none else env.vector_store.get j w.store))
        × ((j : String)
            → entries_of j w'.history ≡ (
                if id == j
                then entries_of j w.history ++ entries_for (removed_content found)
                else entries_of j w.history))
        × Holds w'.store
  delete_lem id w w' h e =
      let (found, read, done, shown) = delete-eq-ok id w w' e in
      let mid : World S = record w { store = (env.vector_store.delete id w.store).1 } in
      let o = content_of env found in
      let same : w'.store ≡ mid.store =
        ap (λ (x : World S). x.store) shown ∙ store-record_deletion id o mid in
      (
        found,
        read,
        (λ j. rw same (contract.get-delete id w.store j h done)),
        (λ j.
            ap (λ (x : World S). entries_of j x.history) shown
            ∙ history-record_deletion id j o mid),
        rw same (contract.delete-Holds id w.store h),
      )

  -- Deleting an id twice is deleting it once: the second call, if it succeeds, changes no record that
  -- can be read and no history.
  pub delete_twice :
      (id : String) (w w' w'' : World S)
      → Holds w.store
      → delete env id w ≡ (ok tt, w')
      → delete env id w' ≡ (ok tt, w'')
      → ((j : String) → env.vector_store.get j w''.store ≡ env.vector_store.get j w'.store)
        × ((j : String) → entries_of j w''.history ≡ entries_of j w'.history)
  delete_twice id w w' w'' h e e' =
      let (found, read, gone, entries, h') = delete_lem id w w' h e in
      let (found', read', gone', entries', h'') = delete_lem id w' w'' h' e' in
      (
        (λ j. ground (arith, gone j, gone' j)),
        (λ j.
            ground (
              arith,
              entries' j,
              read',
              gone id,
              ==_self id,
              append-nil (entries_of j w'.history),
            )),
      )
