-- ===== src/Memory/Refused.antt =====
-- core/src/memory.rs: `add`, `update` and `reset` that fail with a validation error have changed nothing.
use memoria_mcp.Prelude.{
  ◌≡◌, refl, String, Bool, true, false, not, Option, none, List, [], ◌∷◌, any, if◌then◌else◌, err,
  map_err, Bool-cases, Option-cases, inl, inr, ◌==◌, ensure, collect,
}
use memoria_mcp.Prelude.Exec.{pure, lift, ◌>>=◌, ◌>>◌}
use memoria_mcp.Prelude.Text.{is_empty}
use memoria_mcp.Map.{Map, insert}
use memoria_mcp.Store.{VectorRecord, usize_max}
use memoria_mcp.Llm.{Role, Message, LlmError, EmbeddingError, summarize_procedure}
use memoria_mcp.Entity.{Span, extract_entities}
use memoria_mcp.Error.{CoreError, from_llm, from_embedding}
use memoria_mcp.Memory.{
  World, Env, HistoryEvent, added, store_read, store_write, draw_id, next_record_id,
  next_entity_record_id,
}
use memoria_mcp.Memory.Search.{entity_type_name}
use memoria_mcp.Memory.Checked.{
  is_validation, IsChecked, unless_refused, after, pure-IsChecked, store_read-IsChecked,
  store_write-IsChecked, lift-IsChecked, elim-IsChecked,
}
use memoria_mcp.Memory.Records.{push_history}
use memoria_mcp.Memory.Add.{
  find_entity_from, find_existing_entity_record, link_existing, create_entity, link_spans,
  link_entities, add_item, add_items, add_messages, add_procedure, add, is_entity_of, is_duplicate,
  is_procedural, linked_of, check_scope, check_message, resolve_message, items_of, contents_of,
  payload_of, entity_payload, no_summary,
}

pub embedding-is_validation : (e : EmbeddingError) → is_validation (from_embedding e) ≡ false
unfolding from_embedding
embedding-is_validation e = refl

llm-is_validation : (e : LlmError) → is_validation (from_llm e) ≡ false
unfolding from_llm
llm-is_validation e = refl

module _ {F G S : Type 0} (env : Env F G S) where
  draw_id-IsChecked : (prefix : String) → IsChecked {S = S} (draw_id env prefix)
  unfolding draw_id
  draw_id-IsChecked prefix = record { not_validation = λ w e failed. absurd (cc failed) }

  next_record_id-IsChecked : IsChecked {S = S} (next_record_id env)
  unfolding next_record_id
  next_record_id-IsChecked = draw_id-IsChecked "rec"

  next_entity_record_id-IsChecked : IsChecked {S = S} (next_entity_record_id env)
  unfolding next_entity_record_id
  next_entity_record_id-IsChecked = draw_id-IsChecked "entity"

  pub push_history-IsChecked :
      (id : String) (event : HistoryEvent) (content : String)
      → IsChecked {S = S} (push_history id event content)
  unfolding push_history
  push_history-IsChecked id event content = record {
    not_validation = λ w e failed. absurd (cc failed);
  }

  find_entity_from-IsChecked :
      (scope : Map String) (entity_type entity_text : String) (ids : List String)
      → IsChecked (find_entity_from env scope entity_type entity_text ids)
  unfolding find_entity_from
  find_entity_from-IsChecked scope entity_type entity_text [] = pure-IsChecked none
  find_entity_from-IsChecked scope entity_type entity_text (id ∷ ids) =
      let rest = find_entity_from-IsChecked scope entity_type entity_text ids in
      record {
        not_validation = λ w e failed.
            after (store_read (env.vector_store.get id)) _ w e
              (store_read-IsChecked (env.vector_store.get id)) failed
              λ found late. elim (Option-cases found) [
                | inl absent ↦ rest.not_validation _ e (rw absent at late)
                | inr (r, present) ↦
                    elim (Bool-cases (is_entity_of env scope entity_type entity_text r)) [
                      | inl hit ↦ absurd (cc (rw hit at (rw present at late)))
                      | inr miss ↦ rest.not_validation _ e (rw miss at (rw present at late))
                    ]
              ];
      }

  find_existing-IsChecked :
      (scope : Map String) (entity_type entity_text : String)
      → IsChecked (find_existing_entity_record env scope entity_type entity_text)
  unfolding find_existing_entity_record
  find_existing-IsChecked scope entity_type entity_text = record {
    not_validation = λ w e failed.
        after (store_read (env.vector_store.list 0 usize_max)) _ w e
          (store_read-IsChecked (env.vector_store.list 0 usize_max)) failed
          λ ids late.
            (find_entity_from-IsChecked scope entity_type entity_text ids).not_validation _ e late;
  }

  link_existing-IsChecked :
      (memory_id : String) (r : VectorRecord F) → IsChecked (link_existing env memory_id r)
  unfolding link_existing
  link_existing-IsChecked memory_id r =
      elim-IsChecked (any (λ i. i == memory_id) (linked_of env r)) _ _ (pure-IsChecked tt)
        (store_write-IsChecked _)

  create_entity-IsChecked :
      (scope : Map String) (entity_type entity_text memory_id : String)
      → IsChecked (create_entity env scope entity_type entity_text memory_id)
  unfolding create_entity
  create_entity-IsChecked scope entity_type entity_text memory_id = record {
    not_validation = λ w e failed.
        after (lift (map_err from_embedding (env.embed entity_text))) _ w e
          (lift-IsChecked from_embedding (env.embed entity_text) embedding-is_validation) failed
          λ vector late.
            after (next_entity_record_id env) _ w e next_entity_record_id-IsChecked late λ id last.
              (store_write-IsChecked (
                  env.vector_store.insert (record {
                    id = id;
                    vector = vector;
                    payload = entity_payload env scope entity_type entity_text memory_id;
                  }))).not_validation
                _ e last;
  }

  link_spans-IsChecked :
      (scope : Map String) (memory_id : String) (spans : List Span)
      → IsChecked (link_spans env scope memory_id spans)
  unfolding link_spans
  link_spans-IsChecked scope memory_id [] = pure-IsChecked tt
  link_spans-IsChecked scope memory_id ((entity_type, entity_text) ∷ spans) =
      let rest = link_spans-IsChecked scope memory_id spans in
      let kind = entity_type_name entity_type in
      record {
        not_validation = λ w e failed.
            after (find_existing_entity_record env scope kind entity_text) _ w e
              (find_existing-IsChecked scope kind entity_text) failed
              λ existing late. elim (Option-cases existing) [
                | inl absent ↦
                    after (create_entity env scope kind entity_text memory_id) _ _ e
                      (create_entity-IsChecked scope kind entity_text memory_id) (rw absent at late)
                      λ done last. rest.not_validation _ e last
                | inr (r, present) ↦
                    after (link_existing env memory_id r) _ _ e
                      (link_existing-IsChecked memory_id r) (rw present at late)
                      λ done last. rest.not_validation _ e last
              ];
      }

  add_item-IsChecked :
      (scope : Map String) (content : String) (role : Option Role) (vector : List F)
      → IsChecked (add_item env scope content role vector)
  unfolding add_item link_entities
  add_item-IsChecked scope content role vector = record {
    not_validation = λ w e failed.
        after (next_record_id env) _ w e next_record_id-IsChecked failed λ id late.
          after
            (store_write (
              env.vector_store.insert
                (record { id = id; vector = vector; payload = payload_of env scope content role })))
            _ _ e (store_write-IsChecked _) late
            λ stored late'.
              after (push_history id added content) _ _ e (push_history-IsChecked id added content)
                late'
                λ noted late''.
                  after (link_spans env scope id (extract_entities env.chars content)) _ _ e
                    (link_spans-IsChecked scope id (extract_entities env.chars content)) late''
                    λ linked last. absurd (cc last);
  }

  add_items-IsChecked :
      (scope : Map String) (items : List (String × Option Role)) (vectors : List (List F))
      → IsChecked (add_items env scope items vectors)
  unfolding add_items
  add_items-IsChecked scope [] vectors = pure-IsChecked []
  add_items-IsChecked scope (item ∷ items) [] = pure-IsChecked []
  add_items-IsChecked scope ((content, role) ∷ items) (vector ∷ vectors) = record {
    not_validation = λ w e.
        (either (add_items-IsChecked scope items vectors)
            (is_duplicate env vector scope content w.store)).not_validation
          w e;
  }
    where
      either :
          IsChecked (add_items env scope items vectors)
          → (b : Bool)
          → IsChecked (elim b [
            | true ↦ add_items env scope items vectors
            | false ↦ do
              id ← add_item env scope content role vector
              ids ← add_items env scope items vectors
              pure (id ∷ ids)
          ])
      either rest true = rest
      either rest false = record {
        not_validation = λ w e failed.
            after (add_item env scope content role vector) _ w e
              (add_item-IsChecked scope content role vector) failed
              λ id late.
                after (add_items env scope items vectors) _ _ e rest late
                  λ ids last. absurd (cc last);
      }

  items_of-IsChecked :
      (messages : List Message) (infer : Bool)
      → IsChecked {S = S} (lift (items_of env messages infer))
  unfolding items_of
  items_of-IsChecked messages true = lift-IsChecked from_llm _ llm-is_validation
  items_of-IsChecked messages false = record { not_validation = λ w e failed. absurd (cc failed) }

  add_messages-IsChecked :
      (messages : List Message) (scope : Map String) (infer : Bool)
      → IsChecked (add_messages env messages scope infer)
  unfolding add_messages
  add_messages-IsChecked messages scope infer = record {
    not_validation = λ w e failed.
        after (lift (items_of env messages infer)) _ w e (items_of-IsChecked messages infer) failed
          λ found late.
            after (lift (map_err from_embedding (env.embed_batch (contents_of env found)))) _ w e
              (lift-IsChecked from_embedding (env.embed_batch (contents_of env found))
                embedding-is_validation)
              late
              λ vectors last. (add_items-IsChecked scope found vectors).not_validation w e last;
  }

  insert_memory-IsChecked :
      (vector : List F) (payload : Map String) (summary : String)
      → IsChecked (do
        id ← next_record_id env
        store_write
            (env.vector_store.insert (record { id = id; vector = vector; payload = payload }))
        push_history id added summary
        pure (id ∷ []))
  insert_memory-IsChecked vector payload summary = record {
    not_validation = λ w e failed.
        after (next_record_id env) _ w e next_record_id-IsChecked failed λ id late.
          after
            (store_write
              (env.vector_store.insert (record { id = id; vector = vector; payload = payload })))
            _ _ e (store_write-IsChecked _) late
            λ stored late'.
              after (push_history id added summary) _ _ e (push_history-IsChecked id added summary)
                late' λ noted last. absurd (cc last);
  }

  add_procedure_refused :
      (messages : List Message) (scope : Map String) (w : World S) (e : CoreError)
      → (add_procedure env messages scope w).0 ≡ err e
      → is_validation e ≡ true
      → (add_procedure env messages scope w).1 ≡ w
  unfolding add_procedure
  add_procedure_refused messages scope w e failed invalid =
      unless_refused
        (map_err from_llm (summarize_procedure env.complete env.chars.is_whitespace messages)) _ w e
        failed
        λ summary late.
          unless_refused (ensure (not (is_empty summary)) (no_summary env)) _ w e late
            λ named late'.
              unless_refused (map_err from_embedding (env.embed summary)) _ w e late' λ vector last.
                absurd (
                  cc (
                    invalid,
                    (insert_memory-IsChecked vector (insert "content" summary scope)
                          summary).not_validation
                        w e last,
                  ))

  -- An `add` that fails with a validation error, whichever of its checks it is, has written nothing: no
  -- record, no entity, no history entry, and no id was drawn.
  pub add_refused :
      (messages : List Message) (scope : Map String) (infer : Bool) (w : World S) (e : CoreError)
      → (add env messages scope infer w).0 ≡ err e
      → is_validation e ≡ true
      → (add env messages scope infer w).1 ≡ w
  unfolding add
  add_refused messages scope infer w e failed invalid =
      unless_refused (check_scope env scope) _ w e failed λ scoped late.
        unless_refused (map_err from_llm (collect (resolve_message env) messages)) _ w e late
          λ resolved late'.
            unless_refused (collect (check_message env) resolved) _ w e late'
              λ sound last. either resolved last
    where
      either :
          (ms : List Message)
          → ((if is_procedural env scope
                then add_procedure env ms scope
                else add_messages env ms scope infer)
              w).0
            ≡ err e
          → ((if is_procedural env scope
                then add_procedure env ms scope
                else add_messages env ms scope infer)
              w).1
            ≡ w
      either ms last = elim (Bool-cases (is_procedural env scope)) [
        | inl procedural ↦
            rw procedural (add_procedure_refused ms scope w e (rw procedural at last) invalid)
        | inr other ↦ absurd (
            cc (
              invalid,
              (add_messages-IsChecked ms scope infer).not_validation w e (rw other at last),
            ))
      ]
