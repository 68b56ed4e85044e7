-- ===== src/Server/Service/Sound/Routes.antt =====
-- server/src/main.rs: every request is logged with its status or refused, and the buckets keep their bound.
use memoria_mcp.Prelude.{◌≡◌, String, Bool, false, not, ◌&&◌, List, [], ◌∷◌, if◌then◌else◌, ◌==◌}
use memoria_mcp.Float.{gt}
use memoria_mcp.Server.Service.{Service, Arrival, HttpResponse, Outer}
use memoria_mcp.Server.Service.Router.{
  HttpRequest, MethodRouter, open_routes, authenticated_routes, single_routes, auth_routes,
  double_routes,
}
use memoria_mcp.Server.Service.Sound.{AreSound, if_both}
use memoria_mcp.Server.Service.Sound.Handlers.{
  axum_handle_health-IsSound, axum_handle_ready-IsSound, axum_handle_auth_register-IsSound,
  axum_handle_auth_setup_status-IsSound, axum_handle_auth_login-IsSound,
  axum_handle_auth_refresh-IsSound, axum_handle_auth_me_get-IsSound,
  axum_handle_auth_me_patch-IsSound, axum_handle_auth_change_password-IsSound,
  axum_handle_auth_onboarding_complete-IsSound, axum_handle_create_api_key-IsSound,
  axum_handle_list_api_keys-IsSound, axum_handle_revoke_api_key-IsSound,
  axum_handle_list_entities-IsSound, axum_handle_delete_entity-IsSound,
  axum_handle_get_configure-IsSound, axum_handle_get_configure_providers-IsSound,
  axum_handle_generate_instructions-IsSound, axum_handle_get_requests-IsSound,
  axum_handle_create_memory-IsSound, axum_handle_list_memory-IsSound,
  axum_handle_get_memory-IsSound, axum_handle_update_memory-IsSound,
  axum_handle_delete_memory-IsSound, axum_handle_search_memory-IsSound,
  axum_handle_get_history-IsSound, axum_handle_delete_all-IsSound, axum_handle_reset_all-IsSound,
}

module _ {F G N S D T B : Type 0} (service : Service F G N S D T B)
    (not_allowed : HttpRequest B → HttpResponse F) where
  module _ (capped : (a b : G) → gt service.env.f64 (service.env.f64.min a b) b ≡ false)
      (less : (a b : G)
        → gt service.env.f64 a b ≡ false
        → gt service.env.f64 (service.env.f64.sub a (service.env.f64.literal 1 0)) b ≡ false)
      (at : Arrival) (request : HttpRequest B) where
    All-if :
        (b : Bool) (xs ys : MethodRouter (Outer service))
        → AreSound service xs
        → AreSound service ys
        → AreSound service (if b then xs else ys)
    All-if = if_both (AreSound service)

    pub open_routes-AreSound :
        (path : List String) → AreSound service (open_routes service not_allowed at request path)
    unfolding open_routes
    open_routes-AreSound [] = tt
    open_routes-AreSound (a ∷ []) =
        All-if (a == "health") _ _ (axum_handle_health-IsSound service capped less at, tt)
          (All-if (a == "ready") _ _ (axum_handle_ready-IsSound service capped less at, tt) tt)
    open_routes-AreSound (a ∷ b ∷ []) = All-if (not (a == "auth")) _ _ tt (
        All-if (b == "register") _ _
          (
            axum_handle_auth_register-IsSound service capped less at request.headers request.body,
            tt,
          )
          (All-if (b == "setup-status") _ _
            (axum_handle_auth_setup_status-IsSound service capped less at, tt)
            (All-if (b == "login") _ _
              (
                axum_handle_auth_login-IsSound service capped less at request.headers request.body,
                tt,
              )
              (All-if (b == "refresh") _ _
                (
                  axum_handle_auth_refresh-IsSound service capped less at request.headers
                      request.body,
                  tt,
                )
                tt))))
    open_routes-AreSound (a ∷ b ∷ c ∷ rest) = tt

    single_routes-AreSound :
        (a : String) → AreSound service (single_routes service not_allowed at request a)
    single_routes-AreSound a =
        All-if (a == "api-keys") _ _
          (
            axum_handle_create_api_key-IsSound service capped less at request.headers request.body,
            (axum_handle_list_api_keys-IsSound service capped less at request.headers, tt),
          )
          (All-if (a == "entities") _ _
            (axum_handle_list_entities-IsSound service capped less at request.headers, tt)
            (All-if (a == "configure") _ _
              (axum_handle_get_configure-IsSound service capped less at request.headers, tt)
              (All-if (a == "generate-instructions") _ _
                (
                  axum_handle_generate_instructions-IsSound service capped less at request.headers,
                  tt,
                )
                (All-if (a == "requests") _ _
                  (axum_handle_get_requests-IsSound service capped less at request.headers, tt)
                  (All-if (a == "memories") _ _
                    (
                      axum_handle_create_memory-IsSound service capped less at request.headers
                          request.body,
                      (
                        axum_handle_list_memory-IsSound service capped less at request.headers
                            request.query,
                        (
                          axum_handle_delete_all-IsSound service capped less at request.headers
                              request.body,
                          tt,
                        ),
                      ),
                    )
                    (All-if (a == "search") _ _
                      (
                        axum_handle_search_memory-IsSound service capped less at request.headers
                            request.body,
                        tt,
                      )
                      (All-if (a == "reset") _ _
                        (axum_handle_reset_all-IsSound service capped less at request.headers, tt)
                        tt)))))))

    auth_routes-AreSound :
        (b : String) → AreSound service (auth_routes service not_allowed at request b)
    auth_routes-AreSound b =
        All-if (b == "me") _ _
          (
            axum_handle_auth_me_get-IsSound service capped less at request.headers,
            (
              axum_handle_auth_me_patch-IsSound service capped less at request.headers request.body,
              tt,
            ),
          )
          (All-if (b == "change-password") _ _
            (
              axum_handle_auth_change_password-IsSound service capped less at request.headers
                  request.body,
              tt,
            )
            (All-if (b == "onboarding-complete") _ _
              (
                axum_handle_auth_onboarding_complete-IsSound service capped less at request.headers,
                tt,
              )
              tt))

    double_routes-AreSound :
        (a b : String) → AreSound service (double_routes service not_allowed at request a b)
    double_routes-AreSound a b = All-if (a == "auth") _ _ (auth_routes-AreSound b) (
        All-if (a == "api-keys") _ _
          (axum_handle_revoke_api_key-IsSound service capped less at b request.headers, tt)
          (All-if (a == "memories") _ _
            (
              axum_handle_get_memory-IsSound service capped less at b request.headers,
              (
                axum_handle_update_memory-IsSound service capped less at b request.headers
                    request.body,
                (axum_handle_delete_memory-IsSound service capped less at b request.headers, tt),
              ),
            )
            (All-if (a == "configure" && b == "providers") _ _
              (
                axum_handle_get_configure_providers-IsSound service capped less at request.headers,
                tt,
              )
              tt)))

    pub authenticated_routes-AreSound :
        (path : List String)
        → AreSound service (authenticated_routes service not_allowed at request path)
    unfolding authenticated_routes
    authenticated_routes-AreSound [] = tt
    authenticated_routes-AreSound (a ∷ []) = single_routes-AreSound a
    authenticated_routes-AreSound (a ∷ b ∷ []) = double_routes-AreSound a b
    authenticated_routes-AreSound (a ∷ b ∷ c ∷ []) =
        All-if (a == "entities") _ _
          (axum_handle_delete_entity-IsSound service capped less at b c request.headers, tt)
          (All-if (a == "memories" && c == "history") _ _
            (
              axum_handle_get_history-IsSound service capped less at b request.headers
                  request.query,
              tt,
            )
            tt)
    authenticated_routes-AreSound (a ∷ b ∷ c ∷ d ∷ rest) = tt
