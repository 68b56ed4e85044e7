-- ===== src/Server/Service/Router.antt =====
-- server/src/main.rs, `auth_gate_middleware` to `build_router`: which handler a request comes to, and what
-- stands before it. Reading a path is axum's, and so is the answer to a method that a known path has not: a path
-- is given as its decoded segments, none of them empty, and the answer is a parameter. A `HEAD` that axum turns
-- into a `GET`, and its own limit of a body without a declared length, are left out.
use memoria_mcp.Prelude.{
  ℕ, String, Bool, false, not, ◌&&◌, Option, none, some, List, [], ◌∷◌, ◌++◌, find, ltb,
  if◌then◌else◌, ◌==◌,
}
use memoria_mcp.Map.{Map}
use memoria_mcp.Server.Ascii.{parse_unsigned}
use memoria_mcp.Server.Http.{
  Headers, find_header, is_authorized, cors_allow_origin_header, usize_max,
}
use memoria_mcp.Server.Service.{
  Service, State, Arrival, HttpResponse, Outer, no_content, error_reply, to_axum_response,
  wrap_handler,
}
use memoria_mcp.Server.Service.Endpoints.{
  axum_handle_health, axum_handle_ready, axum_handle_auth_register, axum_handle_auth_setup_status,
  axum_handle_auth_login, axum_handle_auth_refresh, axum_handle_auth_me_get,
  axum_handle_auth_me_patch, axum_handle_auth_change_password, axum_handle_auth_onboarding_complete,
  axum_handle_create_api_key, axum_handle_list_api_keys, axum_handle_revoke_api_key,
  axum_handle_list_entities, axum_handle_delete_entity, axum_handle_get_configure,
  axum_handle_get_configure_providers, axum_handle_generate_instructions, axum_handle_get_requests,
  axum_handle_create_memory, axum_handle_list_memory, axum_handle_get_memory,
  axum_handle_update_memory, axum_handle_delete_memory, axum_handle_search_memory,
  axum_handle_get_history, axum_handle_delete_all, axum_handle_reset_all,
}

pub record HttpRequest (B : Type 0) : Type 0 where
  pub method : String
  -- The segments of the path, and the path with its query.
  pub path : List String
  pub path_and_query : String
  pub query : Map String
  pub headers : Headers
  pub body : B

abbrev pub max_request_body_bytes : ℕ
max_request_body_bytes = 1048576

-- The methods of a route with their handlers.
abbrev pub MethodRouter : Type 0 → Type 0
MethodRouter Handler = List (String × Handler)

abbrev pub is_preflight : String → Option String → Bool
is_preflight method none = false
is_preflight method (some origin) = method == "OPTIONS"

abbrev allow_methods : String × String
allow_methods = ("access-control-allow-methods", "GET, POST, PUT, PATCH, DELETE")

abbrev allow_headers : String × String
allow_headers = ("access-control-allow-headers", "Content-Type, Authorization, X-API-Key")

unfoldable pub declared_length : Headers → ℕ
unfolding find_header parse_unsigned
declared_length headers = elim (find_header headers "content-length") [
  | none ↦ 0
  | some v ↦ elim (parse_unsigned usize_max v) [ none ↦ 0 | some n ↦ n ]
]

module _ {F G N S D T B : Type 0} (service : Service F G N S D T B)
    (not_allowed : HttpRequest B → HttpResponse F) where
  -- The header of an allowed origin, if it can be written.
  abbrev pub cors_headers : Option String → Headers
  cors_headers request_origin = elim (cors_allow_origin_header service.cors_origin request_origin) [
    | none ↦ []
    | some h ↦ if service.is_header_value h.1 then h ∷ [] else []
  ]

  abbrev preflight_response : Option String → HttpResponse F
  preflight_response request_origin = record {
    status = 204;
    headers = cors_headers request_origin ++ (allow_methods ∷ allow_headers ∷ []);
    body = no_content;
  }

  unfoldable pub cors_middleware : HttpRequest B → Outer service → Outer service
  unfolding find_header cors_allow_origin_header
  cors_middleware request next st =
      let request_origin = find_header request.headers "origin" in
      let (response, st') = next st in
      if is_preflight request.method request_origin
      then (preflight_response request_origin, st)
      else (record response { headers = response.headers ++ cors_headers request_origin }, st')

  unfoldable pub body_size_limit_middleware : HttpRequest B → Outer service → Outer service
  unfolding declared_length
  body_size_limit_middleware request next st =
      if ltb max_request_body_bytes (declared_length request.headers)
      then (to_axum_response (error_reply 413 "request body too large"), st)
      else next st

  module _ (at : Arrival) (request : HttpRequest B) where
    unfoldable pub auth_gate_middleware : Outer service → Outer service
    unfolding is_authorized
    auth_gate_middleware next st =
        if not (
          is_authorized service.crypto service.jwt_secret service.token st.auth_store at.gate_now
            request.headers)
        then (to_axum_response (error_reply 401 "unauthorized"), st)
        else next st

    unfoldable pub unknown_route_fallback : Outer service
    unfolding is_authorized
    unknown_route_fallback st =
        if ltb max_request_body_bytes (service.length_of request.body)
        then (to_axum_response (error_reply 413 "request body too large"), st)
        else wrap_handler service at request.method request.path_and_query request.headers
            (λ st'. (
              if is_authorized service.crypto service.jwt_secret service.token st'.auth_store at.now
                    request.headers
                  then error_reply 404 "not found"
                  else error_reply 401 "unauthorized",
              st',
            ))
            st

    unfoldable pub open_routes : List String → MethodRouter (Outer service)
    open_routes (a ∷ []) =
        if a == "health"
        then ("GET", axum_handle_health service at) ∷ []
        else if a == "ready"
        then ("GET", axum_handle_ready service at) ∷ []
        else []
    open_routes (a ∷ b ∷ []) =
        if not (a == "auth")
        then []
        else if b == "register"
        then ("POST", axum_handle_auth_register service at request.headers request.body) ∷ []
        else if b == "setup-status"
        then ("GET", axum_handle_auth_setup_status service at) ∷ []
        else if b == "login"
        then ("POST", axum_handle_auth_login service at request.headers request.body) ∷ []
        else if b == "refresh"
        then ("POST", axum_handle_auth_refresh service at request.headers request.body) ∷ []
        else []
    open_routes _ = []

    abbrev pub single_routes : String → MethodRouter (Outer service)
    single_routes a =
        if a == "api-keys"
        then ("POST", axum_handle_create_api_key service at request.headers request.body)
          ∷ ("GET", axum_handle_list_api_keys service at request.headers)
          ∷ []
        else if a == "entities"
        then ("GET", axum_handle_list_entities service at request.headers) ∷ []
        else if a == "configure"
        then ("GET", axum_handle_get_configure service at request.headers) ∷ []
        else if a == "generate-instructions"
        then ("POST", axum_handle_generate_instructions service at request.headers) ∷ []
        else if a == "requests"
        then ("GET", axum_handle_get_requests service at request.headers) ∷ []
        else if a == "memories"
        then ("POST", axum_handle_create_memory service at request.headers request.body)
          ∷ ("GET", axum_handle_list_memory service at request.headers request.query)
          ∷ ("DELETE", axum_handle_delete_all service at request.headers request.body)
          ∷ []
        else if a == "search"
        then ("POST", axum_handle_search_memory service at request.headers request.body) ∷ []
        else if a == "reset"
        then ("POST", axum_handle_reset_all service at request.headers) ∷ []
        else []

    abbrev pub auth_routes : String → MethodRouter (Outer service)
    auth_routes b =
        if b == "me"
        then ("GET", axum_handle_auth_me_get service at request.headers)
          ∷ ("PATCH", axum_handle_auth_me_patch service at request.headers request.body)
          ∷ []
        else if b == "change-password"
        then ("POST", axum_handle_auth_change_password service at request.headers request.body) ∷ []
        else if b == "onboarding-complete"
        then ("POST", axum_handle_auth_onboarding_complete service at request.headers) ∷ []
        else []

    abbrev pub double_routes : String → String → MethodRouter (Outer service)
    double_routes a b =
        if a == "auth"
        then auth_routes b
        else if a == "api-keys"
        then ("DELETE", axum_handle_revoke_api_key service at b request.headers) ∷ []
        else if a == "memories"
        then ("GET", axum_handle_get_memory service at b request.headers)
          ∷ ("PUT", axum_handle_update_memory service at b request.headers request.body)
          ∷ ("DELETE", axum_handle_delete_memory service at b request.headers)
          ∷ []
        else if a == "configure" && b == "providers"
        then ("GET", axum_handle_get_configure_providers service at request.headers) ∷ []
        else []

    unfoldable pub authenticated_routes : List String → MethodRouter (Outer service)
    authenticated_routes (a ∷ []) = single_routes a
    authenticated_routes (a ∷ b ∷ []) = double_routes a b
    authenticated_routes (a ∷ b ∷ c ∷ []) =
        if a == "entities"
        then ("DELETE", axum_handle_delete_entity service at b c request.headers) ∷ []
        else if a == "memories" && c == "history"
        then ("GET", axum_handle_get_history service at b request.headers request.query) ∷ []
        else []
    authenticated_routes _ = []

    abbrev pub by_method : MethodRouter (Outer service) → Outer service
    by_method handlers st = elim (find (λ h. h.0 == request.method) handlers) [
      | none ↦ (not_allowed request, st)
      | some h ↦ h.1 st
    ]

    abbrev pub gated : MethodRouter (Outer service) → Outer service
    gated [] = unknown_route_fallback
    gated (h ∷ hs) = auth_gate_middleware (by_method (h ∷ hs))

    abbrev pub routed : MethodRouter (Outer service) → Outer service
    routed [] = gated (authenticated_routes request.path)
    routed (h ∷ hs) = by_method (h ∷ hs)

    -- What the router of `build_router` makes of a request.
    unfoldable pub serve : Outer service
    unfolding open_routes authenticated_routes auth_gate_middleware unknown_route_fallback
    serve =
        body_size_limit_middleware request
          (cors_middleware request (routed (open_routes request.path)))

  -- The requests one after the other.
  unfoldable pub serve_all : List (Arrival × HttpRequest B) → State G S D → State G S D
  unfolding serve
  serve_all [] st = st
  serve_all ((at, request) ∷ later) st = serve_all later (serve at request st).1
