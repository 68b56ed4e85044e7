-- ===== src/Server/Http/Memories.antt =====
-- server/src/main.rs, `handle_create_memory` to `handle_list_memory`: the handlers over the engine. They
-- take what serde makes of a body, and the decoded pairs of a query, and answer a status with the value
-- that serde writes.
use memoria_mcp.Prelude.{
  ℕ, String, Bool, true, false, Option, none, some, List, [], ◌∷◌, if◌then◌else◌, Result, ok, err,
  ◌>>=◌, ◌==◌, format,
}
use memoria_mcp.Map.{Map, get, insert, empty}
use memoria_mcp.Filter.{FilterExpr}
use memoria_mcp.Filter.Parse.{Value, parse_filter_expr}
use memoria_mcp.Llm.{user, Message, with_images}
use memoria_mcp.Error.{show_error}
use memoria_mcp.Memory.{World, Env}
use memoria_mcp.Memory.Search.{search}
use memoria_mcp.Memory.Add.{add}
use memoria_mcp.Memory.Records.{update, get_record, list, delete, reset, health_check, history}
use memoria_mcp.Memory.Entities.{list_entities}
use memoria_mcp.Server.Ascii.{parse_unsigned}
use memoria_mcp.Server.Crypto.{Primitives}
use memoria_mcp.Server.Auth.{AuthStore}
use memoria_mcp.Server.RequestLog.{Log}
use memoria_mcp.Server.Http.{Headers, caller_is_admin, usize_max}
use memoria_mcp.Server.Http.Requests.{
  parse_message_role, is_valid_ymd_format, with_field, scope_from_optional, MessageInput,
  CreateMemoryRequest, SearchMemoryRequest, UpdateMemoryRequest, DeleteAllRequest, empty_body, ids,
  stored, results, entries, deleted, entities, message, service, requests, Response, reply, failure,
  answer, refuse_or, parsed_body,
}

abbrev pub unwrap_or : {A : Type 0} → A → Option A → A
unwrap_or d none = d
unwrap_or d (some a) = a

-- `params.get(name).and_then(|v| v.parse().ok()).unwrap_or(default)`
unfoldable pub number_param : Map String → String → ℕ → ℕ
number_param params name default = elim (get name params) [
  | none ↦ default
  | some v ↦ unwrap_or default (parse_unsigned usize_max v)
]

abbrev is_true : Option String → Bool
is_true none = false
is_true (some v) = v == "true"

abbrev pub entity_field : String → Option String
entity_field entity_type =
    if entity_type == "user"
    then some "user_id"
    else if entity_type == "agent"
    then some "agent_id"
    else if entity_type == "run"
    then some "run_id"
    else none

module _ {F G S : Type 0} (env : Env F G S) where
  module _ (as_bytes : String → List ℕ) (debug : String → String) where
    unfoldable pub parse_inputs : List MessageInput → Result (Response F) (List Message)
    parse_inputs [] = ok []
    parse_inputs (input ∷ inputs) = elim (parse_message_role input.role) [
      | none ↦ err (
          failure 400 (
            format (
              "unknown message role "
              ∷ debug input.role
              ∷ " (expected \"system\", \"user\", or \"assistant\")"
              ∷ [])))
      | some role ↦ do
        parsed ← parse_inputs inputs
        ok (with_images role input.content input.images ∷ parsed)
    ]

    unfoldable pub request_messages : CreateMemoryRequest → Result (Response F) (List Message)
    unfolding parse_inputs
    request_messages request = elim request.messages [
      | some inputs ↦ parse_inputs inputs
      | none ↦ elim request.content [
        | some content ↦ ok (with_images user content request.images ∷ [])
        | none ↦ err (failure 400 "request body must include either \"content\" or \"messages\"")
      ]
    ]

    unfoldable pub request_scope : CreateMemoryRequest → Result (Response F) (Map String)
    request_scope request =
        let typed =
          with_field "memory_type" request.memory_type
            (scope_from_optional request.user_id request.agent_id request.run_id) in
        elim request.expiration_date [
          | none ↦ ok typed
          | some date ↦
              if is_valid_ymd_format (as_bytes date)
              then ok (insert "expiration_date" date typed)
              else err (
                  failure 400 (
                    format
                      ("expiration_date " ∷ debug date ∷ " must be in YYYY-MM-DD format" ∷ [])))
        ]

    -- The checks of the request, in their order.
    unfoldable pub create_request :
        Result String CreateMemoryRequest → Result (Response F) (List Message × (Map String × Bool))
    unfolding request_scope request_messages
    create_request body = do
      request ← parsed_body body
      scope ← request_scope request
      messages ← request_messages request
      ok (messages, (scope, unwrap_or true request.infer))

    unfoldable pub handle_create_memory :
        Result String CreateMemoryRequest → World S → Response F × World S
    handle_create_memory body =
        refuse_or (create_request body)
          λ r. answer (add env r.0 r.1.0 r.1.1) (λ new_ids. reply 201 (ids new_ids))

  unfoldable pub handle_get_memory : String → World S → Response F × World S
  handle_get_memory id = answer (get_record env id) λ found. elim found [
    | some r ↦ reply 200 (stored r)
    | none ↦ failure 404 (format ("not found: " ∷ id ∷ []))
  ]

  unfoldable pub handle_update_memory :
      String → Result String UpdateMemoryRequest → World S → Response F × World S
  handle_update_memory id body =
      refuse_or (parsed_body body) λ request.
        answer (update env id request.content request.metadata) (λ _. reply 200 empty_body)

  unfoldable pub handle_delete_memory : String → World S → Response F × World S
  handle_delete_memory id = answer (delete env id) (λ _. reply 200 empty_body)

  unfoldable pub handle_get_history : String → Map String → World S → Response F × World S
  handle_get_history id params =
      answer (history env id (number_param params "offset" 0) (number_param params "limit" 100))
        (λ es. reply 200 (entries es))

  unfoldable pub handle_list_memory : Map String → World S → Response F × World S
  handle_list_memory params =
      answer
        (list env
          (scope_from_optional (get "user_id" params) (get "agent_id" params) (get "run_id" params))
          (number_param params "offset" 0) (number_param params "limit" 100)
          (is_true (get "show_expired" params)) none)
        (λ found. reply 200 (ids found))

  unfoldable pub handle_list_entities : World S → Response F × World S
  handle_list_entities = answer (list_entities env) (λ summaries. reply 200 (entities summaries))

  unfoldable pub handle_health : World S → Response F × World S
  handle_health w = (reply 200 (service "ok"), w)

  unfoldable pub handle_ready : World S → Response F × World S
  handle_ready w =
      let (r, w') = health_check env w in
      (
        elim r [
          | ok _ ↦ reply 200 (service "ready")
          | err e ↦ failure 503 (format ("not ready: " ∷ show_error e ∷ []))
        ],
        w',
      )

  module _ {N : Type 0} (as_f64 : N → Option G) (show_number : N → String) (show : Value N → String)
      (debug : String → String) where
    unfoldable pub parse_optional_filters :
        Option (Value N) → Result (Response F) (Option (FilterExpr G))
    parse_optional_filters none = ok none
    parse_optional_filters (some value) =
        elim (parse_filter_expr as_f64 show_number show debug value) [
          | ok filters ↦ ok (some filters)
          | err e ↦ err (failure 400 (format ("malformed filters: " ∷ e ∷ [])))
        ]

    unfoldable pub handle_search_memory :
        Result String (SearchMemoryRequest F N) → World S → Response F × World S
    handle_search_memory body = refuse_or (parsed_body body) λ request.
        refuse_or (parse_optional_filters request.filters) λ filters.
          answer
            (λ w. (
              search env request.query request.top_k
                  (scope_from_optional request.user_id request.agent_id request.run_id)
                  request.threshold (unwrap_or false request.show_expired) filters
                  (unwrap_or false request.rerank) (unwrap_or false request.explain) w.store,
              w,
            ))
            (λ found. reply 200 (results found))

    module _ (crypto : Primitives) (jwt_secret : List ℕ) (admin_key : Option String) (s : AuthStore)
        (now : ℕ) (headers : Headers) where
      -- `if !caller_is_admin(..) { return (403, ..); }`
      abbrev pub admin_only : (World S → Response F × World S) → World S → Response F × World S
      admin_only rest w =
          if caller_is_admin crypto jwt_secret admin_key s now headers
          then rest w
          else (failure 403 "admin access required", w)

      unfoldable pub handle_delete_all :
          Result String (DeleteAllRequest N) → World S → Response F × World S
      handle_delete_all body = admin_only (
          refuse_or (parsed_body body) λ request.
            refuse_or (parse_optional_filters request.filters) λ filters.
              answer
                (reset env (scope_from_optional request.user_id request.agent_id request.run_id)
                  filters)
                (λ n. reply 200 (deleted n)))

      unfoldable pub handle_delete_entity : String → String → World S → Response F × World S
      handle_delete_entity entity_type entity_id = admin_only λ w. elim (entity_field entity_type) [
        | none ↦ (
          failure 400 (
              format (
                "invalid entity_type '" ∷ entity_type ∷ "': must be one of user, agent, run" ∷ [])),
          w,
        )
        | some field ↦
            answer (reset env (insert field entity_id empty) none)
              (λ _. reply 200 (message "Entity deleted")) w
      ]

      unfoldable pub handle_reset_all : World S → Response F × World S
      handle_reset_all = admin_only (answer (reset env empty none) (λ n. reply 200 (deleted n)))

      unfoldable pub handle_get_requests : Log → World S → Response F × World S
      handle_get_requests log = admin_only (λ w. (reply 200 (requests log), w))
