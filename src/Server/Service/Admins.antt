-- ===== src/Server/Service/Admins.antt =====
-- server/src/main.rs: a caller who is no administrator, at the endpoints that are an administrator's.
use memoria_mcp.Prelude.{
  ℕ, ◌≡◌, refl, Bool, true, false, not, String, [], ◌∷◌, List, ltb, ◌||◌, ◌&&◌, eqb, Bool-cases,
  inl, inr,
}
use memoria_mcp.Server.RateLimiter.{check_and_consume}
use memoria_mcp.Server.Http.{is_authorized, find_header, caller_is_admin}
use memoria_mcp.Server.Http.Memories.{
  handle_delete_all, handle_delete_entity, handle_reset_all, handle_get_requests,
}
use memoria_mcp.Server.Service.{
  Service, State, Arrival, HttpResponse, Outer, Inner, Reply, wrap_handler, run_logged, too_many,
  then_if, on_memory, error_reply, to_axum_response, saving_all, saving_store, keep_store,
  keep_history,
}
use memoria_mcp.Server.Service.Endpoints.{
  axum_handle_delete_all, axum_handle_delete_entity, axum_handle_reset_all,
  axum_handle_get_requests,
}
use memoria_mcp.Server.Service.Router.{
  HttpRequest, serve, cors_middleware, body_size_limit_middleware, auth_gate_middleware,
  open_routes, authenticated_routes, is_preflight, declared_length, max_request_body_bytes,
}
use memoria_mcp.Server.Service.Sound.{if_both}

-- The endpoints for administrators.
pub data AdminRoute : Type 0 where
  delete_all reset_all get_requests : AdminRoute
  delete_entity : String → String → AdminRoute

abbrev pub method_of : AdminRoute → String
method_of delete_all = "DELETE"
method_of reset_all = "POST"
method_of get_requests = "GET"
method_of (delete_entity entity_type entity_id) = "DELETE"

abbrev pub path_of : AdminRoute → List String
path_of delete_all = "memories" ∷ []
path_of reset_all = "reset" ∷ []
path_of get_requests = "requests" ∷ []
path_of (delete_entity entity_type entity_id) = "entities" ∷ entity_type ∷ entity_id ∷ []

-- Preflight, unauthorized, forbidden, too large, too many.
abbrev pub forbids : ℕ → Bool
forbids n = eqb n 204 || (eqb n 401 || (eqb n 403 || (eqb n 413 || eqb n 429)))

module _ {F G S D : Type 0} where
  -- The request was refused, and nothing that the service keeps of records, accounts or files has changed.
  pub record IsForbidden (before : State G S D) (run : HttpResponse F × State G S D) : Type 0 where
    pub status : forbids run.0.status ≡ true
    pub world : run.1.world ≡ before.world
    pub auth_store : run.1.auth_store ≡ before.auth_store
    pub disk : run.1.disk ≡ before.disk
    pub draws : run.1.draws ≡ before.draws

  same :
      (response : HttpResponse F) (st : State G S D)
      → forbids response.status ≡ true
      → IsForbidden st (response, st)
  same response st e = record {
    status = e;
    world = refl;
    auth_store = refl;
    disk = refl;
    draws = refl;
  }

module _ {F G N S D T B : Type 0} (service : Service F G N S D T B) where
  abbrev forbidden : Reply F
  forbidden = error_reply 403 "admin access required"

  -- A handler that forbids is not followed by a save.
  then_if-forbidden :
      (saving : State G S D → State G S D) (f : Inner service) (st : State G S D)
      → f st ≡ (forbidden, st)
      → then_if service (λ n. service.persist_json_snapshot && eqb 200 n) saving f st
        ≡ (forbidden, st)
  then_if-forbidden saving f st h = elim (Bool-cases service.persist_json_snapshot) [
    | inl persists ↦ rw (h, persists) refl
    | inr not ↦ rw (h, not) refl
  ]

  module _ (not_allowed : HttpRequest B → HttpResponse F) (at : Arrival) (request : HttpRequest B)
      (st : State G S D) where
    wrap-IsForbidden :
        (method path : String) (f : Inner service)
        → ((st₁ : State G S D) → st₁.auth_store ≡ st.auth_store → f st₁ ≡ (forbidden, st₁))
        → IsForbidden st (wrap_handler service at method path request.headers f st)
    unfolding wrap_handler run_logged to_axum_response
    wrap-IsForbidden method path f h =
        let checked =
          check_and_consume service.env.f64 service.as_secs_f64 at.peer_ip at.instant
            st.rate_limiter in
        let st₁ = record st { rate_limiter = checked.1 } in
        if_both (IsForbidden st) checked.0 (run_logged service at method path request.headers f st₁)
          (too_many service, st₁)
          (rw (h st₁ refl)
            (record { status = refl; world = refl; auth_store = refl; disk = refl; draws = refl }))
          (record { status = refl; world = refl; auth_store = refl; disk = refl; draws = refl })

    -- What stands before the handlers.
    layers-IsForbidden :
        (answer : Outer service)
        → IsForbidden st (answer st)
        → IsForbidden st (
            body_size_limit_middleware service not_allowed request
              (cors_middleware service not_allowed request
                (auth_gate_middleware service not_allowed at request answer))
              st)
    unfolding body_size_limit_middleware cors_middleware auth_gate_middleware to_axum_response
    layers-IsForbidden answer h =
        let gated = auth_gate_middleware service not_allowed at request answer in
        let inner : IsForbidden st (gated st) =
          if_both (IsForbidden st)
            (not (
              is_authorized service.crypto service.jwt_secret service.token st.auth_store
                at.gate_now request.headers))
            (to_axum_response (error_reply 401 "unauthorized"), st) (answer st) (same _ st refl)
            h in
        if_both (IsForbidden st) (ltb max_request_body_bytes (declared_length request.headers))
          (to_axum_response (error_reply 413 "request body too large"), st)
          (cors_middleware service not_allowed request gated st) (same _ st refl)
          (if_both (IsForbidden st)
            (is_preflight request.method (find_header request.headers "origin")) _ (_, (gated st).1)
            (same _ st refl)
            (record {
              status = inner.status;
              world = inner.world;
              auth_store = inner.auth_store;
              disk = inner.disk;
              draws = inner.draws;
            }))

  abbrev pub asked : AdminRoute → HttpRequest B → HttpRequest B
  asked route request = record request { method = method_of route; path = path_of route }

  module _ (not_allowed : HttpRequest B → HttpResponse F) (at : Arrival) (request : HttpRequest B)
      (st : State G S D)
      (no : caller_is_admin service.crypto service.jwt_secret service.token st.auth_store at.now
          request.headers
        ≡ false) where
    delete_all-IsForbidden :
        IsForbidden st (axum_handle_delete_all service at request.headers request.body st)
    unfolding axum_handle_delete_all handle_delete_all saving_all
    delete_all-IsForbidden =
        wrap-IsForbidden not_allowed at request st "DELETE" "/memories" _ (λ st₁ e.
          then_if-forbidden (λ st₂. keep_history service (keep_store service st₂))
            (λ st₂.
              on_memory service
                (handle_delete_all service.env service.as_f64 service.show_number service.show_value
                  service.debug service.crypto service.jwt_secret service.token st₂.auth_store
                  at.now request.headers (service.parsers.delete_all request.body))
                st₂)
            st₁ (rw (e, no) refl))

    reset_all-IsForbidden : IsForbidden st (axum_handle_reset_all service at request.headers st)
    unfolding axum_handle_reset_all handle_reset_all saving_all
    reset_all-IsForbidden = wrap-IsForbidden not_allowed at request st "POST" "/reset" _ (λ st₁ e.
        then_if-forbidden (λ st₂. keep_history service (keep_store service st₂))
          (λ st₂.
            on_memory service
              (handle_reset_all service.env service.as_f64 service.show_number service.show_value
                service.debug service.crypto service.jwt_secret service.token st₂.auth_store at.now
                request.headers)
              st₂)
          st₁ (rw (e, no) refl))

    delete_entity-IsForbidden :
        (entity_type entity_id : String)
        → IsForbidden st
            (axum_handle_delete_entity service at entity_type entity_id request.headers st)
    unfolding axum_handle_delete_entity handle_delete_entity saving_store
    delete_entity-IsForbidden entity_type entity_id =
        wrap-IsForbidden not_allowed at request st "DELETE" _ _ (λ st₁ e.
          then_if-forbidden (keep_store service)
            (λ st₂.
              on_memory service
                (handle_delete_entity service.env service.as_f64 service.show_number
                  service.show_value service.debug service.crypto service.jwt_secret service.token
                  st₂.auth_store at.now request.headers entity_type entity_id)
                st₂)
            st₁ (rw (e, no) refl))

    get_requests-IsForbidden :
        IsForbidden st (axum_handle_get_requests service at request.headers st)
    unfolding axum_handle_get_requests handle_get_requests
    get_requests-IsForbidden =
        wrap-IsForbidden not_allowed at request st "GET" "/requests" _ (λ st₁ e. rw (e, no) refl)

    -- A request of a caller who is no administrator for an endpoint of an administrator (to delete in bulk, to delete an
    -- entity's records, to reset everything, to show the request log) is refused with 403, or by a layer
    -- before the endpoint with 401, 413, 429 or, for a preflight, 204; and neither a record, nor the history, nor an
    -- account, a key or a token, nor a file has changed.
    pub serve-IsForbidden :
        (route : AdminRoute)
        → IsForbidden st (serve service not_allowed at (asked route request) st)
    unfolding serve open_routes authenticated_routes
    serve-IsForbidden delete_all =
        layers-IsForbidden not_allowed at (asked delete_all request) st _ delete_all-IsForbidden
    serve-IsForbidden reset_all =
        layers-IsForbidden not_allowed at (asked reset_all request) st _ reset_all-IsForbidden
    serve-IsForbidden get_requests =
        layers-IsForbidden not_allowed at (asked get_requests request) st _ get_requests-IsForbidden
    serve-IsForbidden (delete_entity entity_type entity_id) =
        layers-IsForbidden not_allowed at (asked (delete_entity entity_type entity_id) request) st _
          (delete_entity-IsForbidden entity_type entity_id)
