-- ===== src/Memory/Add.antt =====
-- core/src/memory.rs: `add`, and the entity records that it links.
use Prim.Native.String.{len}
use memoria_mcp.Prelude.{
  ℕ, ◌+◌, String, Bool, true, false, not, ◌&&◌, ◌==◌, Option, none, some, List, [], ◌∷◌, ◌++◌, any,
  map, if◌then◌else◌, Result, ok, err, map_err, map_ok, collect, ensure, format, decimal,
}
use memoria_mcp.Prelude.Exec.{pure, lift, ◌>>=◌, ◌>>◌, gets}
use memoria_mcp.Prelude.Text.{is_empty, join}
use memoria_mcp.Map.{Map, get, insert, contains_key}
use memoria_mcp.Store.{VectorRecord, SearchResult, matches, usize_max, is_value}
use memoria_mcp.Llm.{
  Role, Message, as_str, new_message, extract_facts, summarize_procedure, describe_image, LlmError,
}
use memoria_mcp.Error.{CoreError, from_llm, from_embedding}
use memoria_mcp.Entity.{Span, extract_entities}
use memoria_mcp.Memory.{
  Env, Op, added, has_scope_id, is_entity_record, scope_required, store_read, store_write,
  next_record_id, next_entity_record_id, entity_record_kind_key, entity_record_kind_value,
  entity_type_key, entity_text_key, linked_memory_ids_key,
}
use memoria_mcp.Memory.Search.{entity_type_name, linked_ids, exceeds, shown}
use memoria_mcp.Memory.Records.{push_history}

-- `scope.iter().map(|(k, v)| k.len() + v.len()).sum()`
unfoldable pub total_bytes : Map String → ℕ
total_bytes [] = 0
total_bytes ((k, v) ∷ scope) = len k + len v + total_bytes scope

module _ {F G S : Type 0} (env : Env F G S) where
  -- An image message becomes a message with its description.
  unfoldable pub resolve_message : Message → Result LlmError Message
  resolve_message m = elim m.images [
    | [] ↦ ok m
    | _ ∷ _ ↦
        map_ok (λ description. new_message m.role description)
          (describe_image env.complete env.chars.is_whitespace m.images)
  ]

  unfoldable pub check_message : Message → Result CoreError (Unit {0})
  check_message m =
      if is_empty m.content
      then err (CoreError.validation "message content must not be empty")
      else if exceeds env (len m.content) env.max_content_length
      then err (
          CoreError.validation (
            format (
              "message content of "
              ∷ decimal (len m.content)
              ∷ " bytes exceeds the configured limit of "
              ∷ shown env env.max_content_length
              ∷ " bytes"
              ∷ [])))
      else ok tt

  unfoldable pub check_scope : Map String → Result CoreError (Unit {0})
  check_scope scope =
      if not (has_scope_id scope)
      then err scope_required
      else if exceeds env (total_bytes scope) env.max_metadata_bytes
      then err (
          CoreError.validation (
            format (
              "metadata payload of "
              ∷ decimal (total_bytes scope)
              ∷ " bytes exceeds the configured limit of "
              ∷ shown env env.max_metadata_bytes
              ∷ " bytes"
              ∷ [])))
      else ok tt

  unfoldable pub is_procedural : Map String → Bool
  is_procedural scope =
      is_value "procedural_memory" (get "memory_type" scope) && contains_key "agent_id" scope

  abbrev pub no_summary : CoreError
  no_summary =
      CoreError.validation
        "the LLM returned no content for the procedural memory summary -- the model may have declined the request or returned an empty response"

  -- The branch for a procedural memory.
  unfoldable pub add_procedure : List Message → Map String → Op S (List String)
  add_procedure messages scope = do
    summary ←
        lift (map_err from_llm (summarize_procedure env.complete env.chars.is_whitespace messages))
    lift (ensure (not (is_empty summary)) no_summary)
    vector ← lift (map_err from_embedding (env.embed summary))
    id ← next_record_id env
    store_write (
        env.vector_store.insert
          (record { id = id; vector = vector; payload = insert "content" summary scope }))
    push_history id added summary
    pure (id ∷ [])

  unfoldable pub items_of : List Message → Bool → Result CoreError (List (String × Option Role))
  items_of messages true = map_err from_llm (
      map_ok (map (λ fact. (fact, none)))
        (extract_facts env.complete env.chars.is_whitespace messages))
  items_of messages false = ok (map (λ m. (m.content, some m.role)) messages)

  abbrev pub has_content : String → SearchResult F → Bool
  has_content content r = is_value content (get "content" r.payload)

  -- A record of the scope with this content is already among the nearest hundred. A failing search
  -- counts as none.
  unfoldable pub is_duplicate : List F → Map String → String → S → Bool
  is_duplicate vector scope content s = elim (env.vector_store.search vector 100 scope none s) [
    | err e ↦ false
    | ok results ↦ any (has_content content) results
  ]

  abbrev pub with_role : Option Role → Map String → Map String
  with_role none payload = payload
  with_role (some role) payload = insert "role" (as_str role) payload

  unfoldable pub payload_of : Map String → String → Option Role → Map String
  payload_of scope content role =
      with_role role
        (if contains_key "content" scope then scope else insert "content" content scope)

  abbrev pub is_entity_of : Map String → String → String → VectorRecord F → Bool
  is_entity_of scope entity_type entity_text r =
      is_entity_record r.payload
      && (matches scope r.payload
          && (is_value entity_type (get entity_type_key r.payload)
              && is_value entity_text (get entity_text_key r.payload)))

  -- The loop of `find_existing_entity_record`.
  unfoldable pub find_entity_from :
      Map String → String → String → List String → Op S (Option (VectorRecord F))
  find_entity_from scope entity_type entity_text [] = pure none
  find_entity_from scope entity_type entity_text (id ∷ ids) = do
    found ← store_read (env.vector_store.get id)
    elim found [
      | none ↦ find_entity_from scope entity_type entity_text ids
      | some r ↦ elim (is_entity_of scope entity_type entity_text r) [
        | true ↦ pure (some r)
        | false ↦ find_entity_from scope entity_type entity_text ids
      ]
    ]

  unfoldable pub find_existing_entity_record :
      Map String → String → String → Op S (Option (VectorRecord F))
  find_existing_entity_record scope entity_type entity_text = do
    ids ← store_read (env.vector_store.list 0 usize_max)
    find_entity_from scope entity_type entity_text ids

  abbrev pub linked_of : VectorRecord F → List String
  linked_of r = elim (get linked_memory_ids_key r.payload) [ none ↦ [] | some s ↦ linked_ids s ]

  -- An entity record that exists gets the id added to its links, unless it has it.
  unfoldable pub link_existing : String → VectorRecord F → Op S (Unit {0})
  link_existing memory_id r =
      let linked = linked_of r in
      if any (λ i. i == memory_id) linked
      then pure tt
      else store_write (
          env.vector_store.update (record r {
            payload = insert linked_memory_ids_key (join "," (linked ++ memory_id ∷ [])) r.payload;
          }))

  unfoldable pub entity_payload : Map String → String → String → String → Map String
  entity_payload scope entity_type entity_text memory_id = insert linked_memory_ids_key memory_id (
      insert entity_text_key entity_text (
        insert entity_type_key entity_type
          (insert entity_record_kind_key entity_record_kind_value scope)))

  unfoldable pub create_entity : Map String → String → String → String → Op S (Unit {0})
  create_entity scope entity_type entity_text memory_id = do
    vector ← lift (map_err from_embedding (env.embed entity_text))
    id ← next_entity_record_id env
    store_write (
        env.vector_store.insert (record {
          id = id;
          vector = vector;
          payload = entity_payload scope entity_type entity_text memory_id;
        }))

  -- The loop of `link_entities`.
  unfoldable pub link_spans : Map String → String → List Span → Op S (Unit {0})
  link_spans scope memory_id [] = pure tt
  link_spans scope memory_id ((entity_type, entity_text) ∷ spans) = do
    let kind = entity_type_name entity_type
    existing ← find_existing_entity_record scope kind entity_text
    elim existing [
      | some r ↦ link_existing memory_id r
      | none ↦ create_entity scope kind entity_text memory_id
    ]
    link_spans scope memory_id spans

  unfoldable pub link_entities : Map String → String → String → Op S (Unit {0})
  link_entities scope memory_id content =
      link_spans scope memory_id (extract_entities env.chars content)

  -- The part of the loop of `add` after the search for a duplicate.
  unfoldable pub add_item : Map String → String → Option Role → List F → Op S String
  add_item scope content role vector = do
    id ← next_record_id env
    store_write (
        env.vector_store.insert
          (record { id = id; vector = vector; payload = payload_of scope content role }))
    push_history id added content
    link_entities scope id content
    pure id

  -- The loop of `add` over the items zipped with their vectors.
  unfoldable pub add_items :
      Map String → List (String × Option Role) → List (List F) → Op S (List String)
  add_items scope [] vectors = pure []
  add_items scope (item ∷ items) [] = pure []
  add_items scope ((content, role) ∷ items) (vector ∷ vectors) = do
    s ← gets (λ w. w.store)
    elim (is_duplicate vector scope content s) [
      | true ↦ add_items scope items vectors
      | false ↦ do
        id ← add_item scope content role vector
        ids ← add_items scope items vectors
        pure (id ∷ ids)
    ]

  abbrev pub contents_of : List (String × Option Role) → List String
  contents_of = map (λ i. i.0)

  -- The branch for facts or verbatim messages.
  unfoldable pub add_messages : List Message → Map String → Bool → Op S (List String)
  add_messages messages scope infer = do
    items ← lift (items_of messages infer)
    vectors ← lift (map_err from_embedding (env.embed_batch (contents_of items)))
    add_items scope items vectors

  unfoldable pub add : List Message → Map String → Bool → Op S (List String)
  add messages scope infer = do
    lift (check_scope scope)
    resolved ← lift (map_err from_llm (collect resolve_message messages))
    _ ← lift (collect check_message resolved)
    if is_procedural scope then add_procedure resolved scope else add_messages resolved scope infer
