-- ===== src/Mcp/Tools/Agreement/Calls.antt =====
-- mcp/src/main.rs: the tools over a remote service do what they do over a local engine.
use memoria_mcp.Prelude.{
  ℕ, ◌≤◌, map, ◌≡◌, refl, String, true, false, Option, none, some, List, [], ◌∷◌, ok, decimal,
}
use memoria_mcp.Map
use memoria_mcp.Map.{Map}
use memoria_mcp.Server.Numerals.{parse_unsigned-decimal}
use memoria_mcp.Memory.{World, Env}
use memoria_mcp.Filter.Parse.{Value}
use memoria_mcp.Server.Http.Requests
use memoria_mcp.Server.Http.Requests.{
  Body, Response, reply, error_response, scope_from_optional, DeleteAllRequest,
}
use memoria_mcp.Server.Http.Memories.{
  handle_create_memory, handle_get_memory, handle_update_memory, handle_delete_memory,
  handle_list_entities, handle_search_memory, create_request, request_scope, request_messages,
  parse_optional_filters, handle_get_history, number_param, handle_delete_all,
}
use memoria_mcp.Mcp.Remote
use memoria_mcp.Mcp.Remote.{
  Http, RemoteClient, Request, to, get, post, put, no_body, update_body, scope_body, is_success,
  send, ensure_success, error_message, found_at,
}
use memoria_mcp.Mcp.Tools
use memoria_mcp.Server.Crypto.{Primitives}
use memoria_mcp.Server.Auth.{AuthStore}
use memoria_mcp.Server.Http.{Headers, caller_is_admin, usize_max}
use memoria_mcp.Llm.{user, with_images}
use memoria_mcp.Memory.Search.{search}
use memoria_mcp.Memory.Add.{add}
use memoria_mcp.Memory.Entities.{list_entities}
use memoria_mcp.Memory.Records.{get_record, update, delete, reset, history}
use memoria_mcp.Mcp.Tools.{
  event_name, found, search_memories, get_memory, get_memories, memory_history, add_memory,
  update_memory, delete_memory, delete_all_memories, list_memory_entities, Call, Answer, Outcome,
  respond, shown, call_local, call_remote,
}
use memoria_mcp.Mcp.Tools.Agreement.{
  told, Agrees, IsServedBy, step-Agrees, send-Agrees, ensure_success-eq-ok, ensure_success-eq-err,
  lookup-Agrees,
}

-- The query that the client writes, read by the service.
abbrev page : ℕ → ℕ → Map String
page offset limit = ("offset", decimal offset) ∷ ("limit", decimal limit) ∷ []

number_param-decimal :
    (name : String) (default n : ℕ) (params : Map String)
    → n ≤ usize_max
    → Map.get name params ≡ some (decimal n)
    → number_param params name default ≡ n
unfolding number_param
number_param-decimal name default n params h e =
    rw (number_param, e, parse_unsigned-decimal usize_max n h) refl

module _ {F G N S : Type 0} (http : Http F N (World S)) (client : RemoteClient) (env : Env F G S)
    (as_bytes : String → List ℕ) (as_f64 : N → Option G) (show_number : N → String)
    (show : Value N → String) (debug : String → String) (crypto : Primitives) (jwt_secret : List ℕ)
    (admin_key : Option String) (s : AuthStore) (now : ℕ) (headers : Headers) where
  abbrev scope_request : Option String → Option String → Option String → DeleteAllRequest N
  scope_request user_id agent_id run_id = record {
    user_id = user_id;
    agent_id = agent_id;
    run_id = run_id;
    filters = none;
  }

  -- The service answers the request of the call by the handler of its route, over the same engine. `get_memories`
  -- is left out: a record that cannot be read ends it over a service, and is passed over by an engine.
  unfoldable pub Serves : Call F → Type 0
  Serves (search_memories q) =
      IsServedBy http client
        (handle_search_memory env as_f64 show_number show debug (ok (Tools.search_body q)))
        (to http client post ("/search" ∷ []) (Remote.search_body (Tools.search_body q)))
  Serves (get_memory id) =
      IsServedBy http client (handle_get_memory env id)
        (to http client get ("/memories/" ∷ id ∷ []) no_body)
  Serves (add_memory q) =
      IsServedBy http client (handle_create_memory env as_bytes debug (ok (Tools.create_body q)))
        (to http client post ("/memories" ∷ []) (Remote.create_body (Tools.create_body q)))
  Serves (update_memory id content metadata) =
      IsServedBy http client
        (handle_update_memory env id (ok (record { content = content; metadata = metadata })))
        (to http client put ("/memories/" ∷ id ∷ [])
          (update_body (record { content = content; metadata = metadata })))
      × IsServedBy http client (handle_get_memory env id)
          (to http client get ("/memories/" ∷ id ∷ []) no_body)
  Serves (delete_memory id) =
      IsServedBy http client (handle_delete_memory env id)
        (to http client Remote.delete ("/memories/" ∷ id ∷ []) no_body)
  Serves list_memory_entities =
      IsServedBy http client (handle_list_entities env)
        (to http client get ("/entities" ∷ []) no_body)
  Serves (delete_all_memories user_id agent_id run_id) =
      (caller_is_admin crypto jwt_secret admin_key s now headers ≡ true)
      × IsServedBy http client
          (handle_delete_all env as_f64 show_number show debug crypto jwt_secret admin_key s now
            headers (ok (scope_request user_id agent_id run_id)))
          (to http client Remote.delete ("/memories" ∷ [])
            (scope_body (scope_request user_id agent_id run_id)))
  Serves (memory_history id offset limit) =
      (offset ≤ usize_max)
      × (limit ≤ usize_max)
      × IsServedBy http client (handle_get_history env id (page offset limit)) (
          to http client get
            ("/memories/"
              ∷ id
              ∷ "/history?offset="
              ∷ decimal offset
              ∷ "&limit="
              ∷ decimal limit
              ∷ [])
            no_body)
  Serves (get_memories q) = ⊥

  -- Over a service that answers by its handlers, every tool but `get_memories` does what it does over an
  -- engine of its own: the records, the history and the counter end the same, and the answer is the same, or
  -- an error on both sides. A deletion in bulk must come with an administrator's credentials.
  pub call_remote_lem :
      (call : Call F) (w : World S)
      → Serves call
      → Agrees (told (call_remote http client call w)) (told (call_local env call w))
  unfolding Serves call_remote call_local respond Remote.search Remote.get_record Remote.add
      Remote.update Remote.delete_memory Remote.list_entities handle_search_memory handle_get_memory
      handle_create_memory handle_update_memory handle_delete_memory handle_list_entities
      create_request request_scope request_messages parse_optional_filters Remote.history
      handle_get_history Map.get Remote.delete_all handle_delete_all
  call_remote_lem (search_memories q) w serves =
      send-Agrees http client
        (λ w'. (
          search env q.query q.top_k (scope_from_optional q.user_id q.agent_id q.run_id) q.threshold
              q.show_expired none false q.explain w'.store,
          w',
        ))
        200 Requests.results Remote.results_in _ refl (λ a. refl) serves Tools.results w
  call_remote_lem (get_memory id) w serves =
      lookup-Agrees http client id (get_record env id) _ serves w
  call_remote_lem (add_memory q) w serves =
      send-Agrees http client
        (add env (with_images user q.content q.images ∷ [])
          (scope_from_optional q.user_id q.agent_id q.run_id) q.infer)
        201 Requests.ids Remote.ids_in _ refl (λ a. refl) serves Tools.ids w
  call_remote_lem (update_memory id content metadata) w serves =
      step-Agrees http client (ensure_success http client _) (update env id content metadata) _ _ w
        (ensure_success-eq-ok http client (update env id content metadata) _ serves.0 w)
        (ensure_success-eq-err http client (update env id content metadata) _ serves.0 w)
        (λ a w₁. lookup-Agrees http client id (get_record env id) _ serves.1 w₁)
  call_remote_lem (delete_memory id) w serves =
      step-Agrees http client (ensure_success http client _) (delete env id) _ _ w
        (ensure_success-eq-ok http client (delete env id) _ serves w)
        (ensure_success-eq-err http client (delete env id) _ serves w) (λ a w₁. (refl, refl))
  call_remote_lem list_memory_entities w serves =
      send-Agrees http client (list_entities env) 200 Requests.entities Remote.entities_in _ refl
        (λ a. refl) serves Tools.entities w
  call_remote_lem (get_memories q) w serves = absurd serves
  call_remote_lem (memory_history id offset limit) w (low, low', serves) =
      let from = number_param-decimal "offset" 0 offset (page offset limit) low refl in
      let most = number_param-decimal "limit" 100 limit (page offset limit) low' refl in
      send-Agrees http client (history env id offset limit) 200 Requests.entries Remote.entries_in _
        refl (λ a. refl) (λ w'. rw (from, most) at (serves w'))
        (λ es. Tools.entries (map event_name es)) w
  call_remote_lem (delete_all_memories user_id agent_id run_id) w (admin, serves) =
      send-Agrees http client (reset env (scope_from_optional user_id agent_id run_id) none) 200
        Requests.deleted Remote.deleted_in _ refl (λ a. refl) (λ w'. rw admin at (serves w'))
        Tools.deleted_count w
