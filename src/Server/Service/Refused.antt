-- ===== src/Server/Service/Refused.antt =====
-- server/src/main.rs: a request without authorization comes to the open routes alone.
use memoria_mcp.Prelude.{ℕ, ◌≡◌, refl, Bool, true, false, [], ◌∷◌, if◌then◌else◌, ltb, ◌||◌, eqb}
use memoria_mcp.Server.RateLimiter.{check_and_consume}
use memoria_mcp.Server.Http.{is_authorized, find_header}
use memoria_mcp.Server.Service.{
  Service, State, Arrival, HttpResponse, Outer, Inner, wrap_handler, run_logged, too_many,
  error_reply, to_axum_response,
}
use memoria_mcp.Server.Service.Router.{
  HttpRequest, MethodRouter, serve, cors_middleware, body_size_limit_middleware,
  auth_gate_middleware, unknown_route_fallback, open_routes, authenticated_routes, gated, routed,
  is_preflight, declared_length, max_request_body_bytes,
}
use memoria_mcp.Server.Service.Sound.{if_both}

-- Preflight, unauthorized, too large, too many.
abbrev pub denies : ℕ → Bool
denies n = eqb n 204 || (eqb n 401 || (eqb n 413 || eqb n 429))

module _ {F G S D : Type 0} where
  -- The request was denied, and nothing that the service keeps of records, accounts or files has changed.
  pub record IsDenied (before : State G S D) (run : HttpResponse F × State G S D) : Type 0 where
    pub status : denies run.0.status ≡ true
    pub world : run.1.world ≡ before.world
    pub auth_store : run.1.auth_store ≡ before.auth_store
    pub disk : run.1.disk ≡ before.disk
    pub draws : run.1.draws ≡ before.draws

  unchanged :
      (response : HttpResponse F) (st : State G S D)
      → denies response.status ≡ true
      → IsDenied st (response, st)
  unchanged response st e = record {
    status = e;
    world = refl;
    auth_store = refl;
    disk = refl;
    draws = refl;
  }

module _ {F G N S D T B : Type 0} (service : Service F G N S D T B)
    (not_allowed : HttpRequest B → HttpResponse F) (at : Arrival) (request : HttpRequest B)
    (st : State G S D) where
  -- Neither at the gate nor in the fallback do the headers pass.
  abbrev pub IsStranger : Type 0
  IsStranger =
      (is_authorized service.crypto service.jwt_secret service.token st.auth_store at.gate_now
          request.headers
        ≡ false)
      × (is_authorized service.crypto service.jwt_secret service.token st.auth_store at.now
            request.headers
          ≡ false)

  module _ (stranger : IsStranger) where
    fallback-IsDenied : IsDenied st (unknown_route_fallback service not_allowed at request st)
    unfolding unknown_route_fallback wrap_handler run_logged to_axum_response
    fallback-IsDenied =
        let answered : denies
              (if is_authorized service.crypto service.jwt_secret service.token st.auth_store at.now
                  request.headers
                then error_reply {F = F} 404 "not found"
                else error_reply 401 "unauthorized").0
            ≡ true =
          rw (stranger.1) refl in
        let checked =
          check_and_consume service.env.f64 service.as_secs_f64 at.peer_ip at.instant
            st.rate_limiter in
        let st₁ = record st { rate_limiter = checked.1 } in
        let answer : Inner service = λ st'. (
          if is_authorized service.crypto service.jwt_secret service.token st'.auth_store at.now
                request.headers
              then error_reply 404 "not found"
              else error_reply 401 "unauthorized",
          st',
        ) in
        let logged =
          run_logged service at request.method request.path_and_query request.headers answer st₁ in
        if_both (IsDenied st) (ltb max_request_body_bytes (service.length_of request.body))
          (to_axum_response (error_reply 413 "request body too large"), st)
          (wrap_handler service at request.method request.path_and_query request.headers answer st)
          (unchanged _ st refl)
          (if_both (IsDenied st) checked.0 logged (too_many service, st₁)
            (record {
              status = answered;
              world = refl;
              auth_store = refl;
              disk = refl;
              draws = refl;
            })
            (record { status = refl; world = refl; auth_store = refl; disk = refl; draws = refl }))

    gated-IsDenied :
        (handlers : MethodRouter (Outer service))
        → IsDenied st (gated service not_allowed at request handlers st)
    unfolding auth_gate_middleware to_axum_response
    gated-IsDenied [] = fallback-IsDenied
    gated-IsDenied (h ∷ hs) = rw (stranger.0) (unchanged _ st refl)

    -- A request whose headers do not pass, for any path but those of the six open routes, known or unknown,
    -- with any method and body, is denied (401, or 413, 429, or 204 for a preflight), and neither a record, nor the
    -- history, nor an account, a key or a token, nor a file has changed.
    pub serve-IsDenied :
        open_routes service not_allowed at request request.path ≡ []
        → IsDenied st (serve service not_allowed at request st)
    unfolding serve body_size_limit_middleware cors_middleware to_axum_response
    serve-IsDenied closed =
        let inner : IsDenied st (
            routed service not_allowed at request
              (open_routes service not_allowed at request request.path) st) =
          rw closed
            (gated-IsDenied (authenticated_routes service not_allowed at request request.path)) in
        let answer =
          routed service not_allowed at request
            (open_routes service not_allowed at request request.path) in
        if_both (IsDenied st) (ltb max_request_body_bytes (declared_length request.headers))
          (to_axum_response (error_reply 413 "request body too large"), st)
          (cors_middleware service not_allowed request answer st) (unchanged _ st refl)
          (if_both (IsDenied st)
            (is_preflight request.method (find_header request.headers "origin")) _
            (_, (answer st).1) (unchanged _ st refl)
            (record {
              status = inner.status;
              world = inner.world;
              auth_store = inner.auth_store;
              disk = inner.disk;
              draws = inner.draws;
            }))
