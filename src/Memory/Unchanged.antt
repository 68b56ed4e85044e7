-- ===== src/Memory/Unchanged.antt =====
-- core/src/memory.rs: an `update` that fails with a validation error has changed nothing, and a `reset` never
-- fails with one.
use memoria_mcp.Prelude.{
  ℕ, ◌+◌, ◌≡◌, refl, String, true, false, Option, none, some, List, [], ◌∷◌, err, Bool-cases,
  Option-cases, Result-cases, format, inl, inr,
}
use memoria_mcp.Prelude.Exec.{lift}
use memoria_mcp.Map.{Map}
use memoria_mcp.Store.{VectorRecord, usize_max}
use memoria_mcp.Filter.{FilterExpr}
use memoria_mcp.Error.{CoreError, from_embedding}
use memoria_mcp.Memory.{World, Env, deleted, store_read, store_write}
use memoria_mcp.Memory.Checked.{
  is_validation, IsChecked, after, the_error, throw-IsChecked, pure-IsChecked, store_read-IsChecked,
  store_write-IsChecked,
}
use memoria_mcp.Memory.Refused.{push_history-IsChecked, embedding-is_validation}
use memoria_mcp.Memory.Records.{
  update, set_content, set_metadata, changes_scope, delete, reset_from, reset, is_target,
  content_of, record_deletion,
}

module _ {F G S : Type 0} (env : Env F G S) where
  set_content-IsChecked :
      (content : Option String) (r : VectorRecord F)
      → IsChecked {S = S} (lift (set_content env content r))
  unfolding set_content
  set_content-IsChecked none r = record { not_validation = λ w e failed. absurd (cc failed) }
  set_content-IsChecked (some content) r = record {
    not_validation = λ w e failed. elim (Result-cases (env.embed content)) [
      | inl (vector, done) ↦ absurd (cc (rw (done, set_content) at failed))
      | inr (d, broken) ↦
          rw (← the_error (from_embedding d) e (rw (broken, set_content) at failed))
            (embedding-is_validation d)
    ];
  }

  -- An update that fails with a validation error has changed nothing.
  pub update_rejected :
      (id : String) (content : Option String) (metadata : Option (Map String)) (w : World S)
      (e : CoreError)
      → (update env id content metadata w).0 ≡ err e
      → is_validation e ≡ true
      → (update env id content metadata w).1 ≡ w
  unfolding update
  update_rejected id content metadata w e failed invalid =
      elim (Bool-cases (changes_scope env metadata)) [
        | inl scoped ↦ rw scoped refl
        | inr free ↦
            let valid : is_validation e ≡ false =
              after (store_read (env.vector_store.get id)) _ w e
                (store_read-IsChecked (env.vector_store.get id)) (rw free at failed)
                λ found late. elim (Option-cases found) [
                  | inl absent ↦
                      (throw-IsChecked {S = S} {A = Unit {0}}
                          (CoreError.not_found (format ("record " ∷ id ∷ " not found" ∷ [])))
                          refl).not_validation
                        w e (rw absent at late)
                  | inr (r, present) ↦
                      after (lift (set_content env content r)) _ _ e
                        (set_content-IsChecked content r) (rw present at late)
                        λ r' last.
                          (store_write-IsChecked (
                              env.vector_store.update
                                (set_metadata env metadata r'))).not_validation
                            _ e last
                ] in
            absurd (cc (valid, invalid))
      ]

  delete-IsChecked : (id : String) → IsChecked (delete env id)
  unfolding delete
  delete-IsChecked id = record {
    not_validation = λ w e failed.
        after (store_read (env.vector_store.get id)) _ w e
          (store_read-IsChecked (env.vector_store.get id)) failed
          λ found late.
            after (store_write (env.vector_store.delete id)) _ _ e
              (store_write-IsChecked (env.vector_store.delete id)) late
              λ gone last. (noted (content_of env found)).not_validation _ e last;
  }
    where
      noted : (content : Option String) → IsChecked (record_deletion env id content)
      noted none = pure-IsChecked tt
      noted (some content) = push_history-IsChecked env id deleted content

  reset_from-IsChecked :
      (scope : Map String) (filters : Option (FilterExpr G)) (ids : List String) (n : ℕ)
      → IsChecked (reset_from env scope filters ids n)
  unfolding reset_from
  reset_from-IsChecked scope filters [] n = pure-IsChecked n
  reset_from-IsChecked scope filters (id ∷ ids) n =
      let skip = reset_from-IsChecked scope filters ids n in
      let next = reset_from-IsChecked scope filters ids (n + 1) in
      record {
        not_validation = λ w e failed.
            after (store_read (env.vector_store.get id)) _ w e
              (store_read-IsChecked (env.vector_store.get id)) failed
              λ found late. elim (Option-cases found) [
                | inl absent ↦ skip.not_validation _ e (rw absent at late)
                | inr (r, present) ↦ elim (Bool-cases (is_target env scope filters r)) [
                  | inl hit ↦
                      after (delete env id) _ _ e (delete-IsChecked id)
                        (rw hit at (rw present at late)) λ gone last. next.not_validation _ e last
                  | inr miss ↦ skip.not_validation _ e (rw miss at (rw present at late))
                ]
              ];
      }

  pub reset-IsChecked :
      (scope : Map String) (filters : Option (FilterExpr G)) → IsChecked (reset env scope filters)
  unfolding reset
  reset-IsChecked scope filters = record {
    not_validation = λ w e failed.
        after (store_read (env.vector_store.list 0 usize_max)) _ w e
          (store_read-IsChecked (env.vector_store.list 0 usize_max)) failed
          λ ids late. (reset_from-IsChecked scope filters ids 0).not_validation _ e late;
  }
