-- ===== src/Memory/Records.antt =====
-- core/src/memory.rs: `update`, `get`, `list`, `delete`, `reset`, `health_check` and the history.
use memoria_mcp.Prelude.{
  ℕ, ◌+◌, String, Bool, true, false, not, ◌&&◌, Option, none, some, List, [], ◌∷◌, ◌++◌, any,
  retain, take, drop, if◌then◌else◌, Result, ok, err, map_err, format,
}
use memoria_mcp.Prelude.Exec.{pure, throw, lift, ◌>>=◌, ◌>>◌, modify, gets}
use memoria_mcp.Map.{Map, get, insert, keys}
use memoria_mcp.Store.{VectorRecord, matches, usize_max}
use memoria_mcp.Filter.{FilterExpr}
use memoria_mcp.Llm.{user, new_message}
use memoria_mcp.Error.{CoreError, from_llm, from_embedding}
use memoria_mcp.Memory.{
  Env, Op, HistoryEvent, HistoryEntry, deleted, is_scope_field, has_scope_id, is_entity_record,
  is_expired, today, scope_required, store_read, store_write, entries_of,
}
use memoria_mcp.Memory.Search.{passes_filters}

-- `entry(id).or_default().push(..)`
unfoldable pub push_history : {S : Type 0} → String → HistoryEvent → String → Op S (Unit {0})
push_history id event content = modify (λ w. record w {
  history =
      insert id (entries_of id w.history ++ record { event = event; content = content } ∷ [])
        w.history;
})

-- `for (key, value) in metadata_map { record.payload.insert(key, value); }`
unfoldable pub extend_payload : Map String → Map String → Map String
extend_payload [] payload = payload
extend_payload ((k, v) ∷ metadata) payload = extend_payload metadata (insert k v payload)

module _ {F G S : Type 0} (env : Env F G S) where
  abbrev pub scope_change : CoreError
  scope_change =
      CoreError.validation
        "metadata update must not change scope fields (user_id, agent_id, run_id)"

  abbrev pub changes_scope : Option (Map String) → Bool
  changes_scope none = false
  changes_scope (some m) = any is_scope_field (keys m)

  -- The new vector and the payload with the new content.
  unfoldable pub set_content : Option String → VectorRecord F → Result CoreError (VectorRecord F)
  set_content none r = ok r
  set_content (some content) r = elim (env.embed content) [
    | err e ↦ err (from_embedding e)
    | ok vector ↦ ok (record r { vector = vector; payload = insert "content" content r.payload })
  ]

  unfoldable pub set_metadata : Option (Map String) → VectorRecord F → VectorRecord F
  set_metadata none r = r
  set_metadata (some metadata) r = record r { payload = extend_payload metadata r.payload }

  unfoldable pub update : String → Option String → Option (Map String) → Op S (Unit {0})
  update id content metadata = if changes_scope metadata then throw scope_change else do
    found ← store_read (env.vector_store.get id)
    elim found [
      | none ↦ throw (CoreError.not_found (format ("record " ∷ id ∷ " not found" ∷ [])))
      | some r ↦ do
        r' ← lift (set_content content r)
        store_write (env.vector_store.update (set_metadata metadata r'))
    ]

  unfoldable pub get_record : String → Op S (Option (VectorRecord F))
  get_record id = store_read (env.vector_store.get id)

  -- The test of `list_ids`: an id whose record cannot be read survives.
  unfoldable pub survives : S → Option (Map String) → Bool → Option (FilterExpr G) → String → Bool
  survives s scope show_expired filters id = elim (env.vector_store.get id s) [
    | err e ↦ true
    | ok found ↦ elim found [
      | none ↦ true
      | some r ↦
          not (is_entity_record r.payload)
          && (elim scope [ none ↦ true | some sc ↦ matches sc r.payload ]
              && ((if show_expired then true else not (is_expired r.payload (today env)))
                  && passes_filters env filters r.payload))
    ]
  ]

  unfoldable pub list_ids :
      Option (Map String) → ℕ → ℕ → Bool → Option (FilterExpr G) → Op S (List String)
  list_ids scope offset limit show_expired filters = do
    all_ids ← store_read (env.vector_store.list 0 usize_max)
    s ← gets (λ w. w.store)
    pure (take limit (drop offset (retain (survives s scope show_expired filters) all_ids)))

  unfoldable pub list : Map String → ℕ → ℕ → Bool → Option (FilterExpr G) → Op S (List String)
  list scope offset limit show_expired filters =
      if has_scope_id scope
      then list_ids (some scope) offset limit show_expired filters
      else throw scope_required

  unfoldable pub list_all : ℕ → ℕ → Bool → Option (FilterExpr G) → Op S (List String)
  list_all = list_ids none

  abbrev pub content_of : Option (VectorRecord F) → Option String
  content_of none = none
  content_of (some r) = get "content" r.payload

  abbrev pub record_deletion : String → Option String → Op S (Unit {0})
  record_deletion id none = pure tt
  record_deletion id (some content) = push_history id deleted content

  unfoldable pub delete : String → Op S (Unit {0})
  delete id = do
    found ← store_read (env.vector_store.get id)
    store_write (env.vector_store.delete id)
    record_deletion id (content_of found)

  abbrev pub is_target : Map String → Option (FilterExpr G) → VectorRecord F → Bool
  is_target scope filters r = matches scope r.payload && passes_filters env filters r.payload

  -- The loop of `reset`.
  unfoldable pub reset_from : Map String → Option (FilterExpr G) → List String → ℕ → Op S ℕ
  reset_from scope filters [] n = pure n
  reset_from scope filters (id ∷ ids) n = do
    found ← store_read (env.vector_store.get id)
    elim found [
      | none ↦ reset_from scope filters ids n
      | some r ↦ elim (is_target scope filters r) [
        | true ↦ do delete id; reset_from scope filters ids (n + 1)
        | false ↦ reset_from scope filters ids n
      ]
    ]

  unfoldable pub reset : Map String → Option (FilterExpr G) → Op S ℕ
  reset scope filters = do
    ids ← store_read (env.vector_store.list 0 usize_max)
    reset_from scope filters ids 0

  unfoldable pub health_check : Op S (Unit {0})
  health_check = do
    _ ← lift (map_err from_llm (env.complete (new_message user "health check" ∷ [])))
    _ ← lift (map_err from_embedding (env.embed "health check"))
    _ ← store_read (env.vector_store.list 0 0)
    pure tt

  unfoldable pub history : String → ℕ → ℕ → Op S (List HistoryEntry)
  history id offset limit = gets (λ w. take limit (drop offset (entries_of id w.history)))

  unfoldable pub history_snapshot : Op S (Map (List HistoryEntry))
  history_snapshot = gets (λ w. w.history)

  unfoldable pub load_history_snapshot : Map (List HistoryEntry) → Op S (Unit {0})
  load_history_snapshot snapshot = modify (λ w. record w { history = snapshot })
