-- ===== src/Server/Service/Endpoints.antt =====
-- server/src/main.rs, `axum_handle_health` to `axum_handle_reset_all`: the handlers as the router calls them.
use memoria_mcp.Prelude.{String, Bool, Option, none, some, [], ◌∷◌, true, false, format}
use memoria_mcp.Map.{Map}
use memoria_mcp.Server.Http.{Headers}
use memoria_mcp.Server.Http.Handlers.{
  handle_auth_register, handle_auth_setup_status, handle_auth_login, handle_auth_refresh,
  handle_auth_me_get, handle_auth_me_patch, handle_auth_change_password,
  handle_auth_onboarding_complete, handle_create_api_key, handle_list_api_keys,
  handle_revoke_api_key,
}
use memoria_mcp.Server.Http.Memories.{
  handle_health, handle_ready, handle_create_memory, handle_get_memory, handle_update_memory,
  handle_delete_memory, handle_get_history, handle_list_memory, handle_list_entities,
  handle_search_memory, handle_delete_all, handle_delete_entity, handle_reset_all,
  handle_get_requests,
}
use memoria_mcp.Server.Http.Configure.{
  handle_get_configure, handle_get_configure_providers, handle_generate_instructions,
}
use memoria_mcp.Server.Service.{
  Service, Arrival, Outer, configure, providers, instructions, on_memory, on_accounts, drawing,
  saving_accounts, saving_store, saving_all, wrap_handler,
}

abbrev pub is_some : Option String → Bool
is_some none = false
is_some (some s) = true

module _ {F G N S D T B : Type 0} (service : Service F G N S D T B) (at : Arrival) where
  unfoldable pub axum_handle_health : Outer service
  axum_handle_health =
      wrap_handler service at "GET" "/health" [] (on_memory service (handle_health service.env))

  unfoldable pub axum_handle_ready : Outer service
  axum_handle_ready =
      wrap_handler service at "GET" "/ready" [] (on_memory service (handle_ready service.env))

  unfoldable pub axum_handle_auth_register : Headers → B → Outer service
  axum_handle_auth_register headers body = wrap_handler service at "POST" "/auth/register" headers (
      saving_accounts service 201 (
        drawing service λ draw. on_accounts service (
          handle_auth_register service.host service.crypto service.jwt_secret draw
            (service.parsers.register body))))

  unfoldable pub axum_handle_auth_setup_status : Outer service
  axum_handle_auth_setup_status = wrap_handler service at "GET" "/auth/setup-status" [] (
      on_accounts service (handle_auth_setup_status service.host service.crypto service.jwt_secret))

  unfoldable pub axum_handle_auth_login : Headers → B → Outer service
  axum_handle_auth_login headers body = wrap_handler service at "POST" "/auth/login" headers (
      saving_accounts service 200 (
        on_accounts service (
          handle_auth_login service.host service.crypto service.jwt_secret
            (service.parsers.login body))))

  unfoldable pub axum_handle_auth_refresh : Headers → B → Outer service
  axum_handle_auth_refresh headers body = wrap_handler service at "POST" "/auth/refresh" headers (
      saving_accounts service 200 (
        on_accounts service (
          handle_auth_refresh service.host service.crypto service.jwt_secret
            (service.parsers.refresh body))))

  unfoldable pub axum_handle_auth_me_get : Headers → Outer service
  axum_handle_auth_me_get headers = wrap_handler service at "GET" "/auth/me" headers (
      on_accounts service
        (handle_auth_me_get service.host service.crypto service.jwt_secret headers))

  unfoldable pub axum_handle_auth_me_patch : Headers → B → Outer service
  axum_handle_auth_me_patch headers body = wrap_handler service at "PATCH" "/auth/me" headers (
      saving_accounts service 200 (
        on_accounts service (
          handle_auth_me_patch service.host service.crypto service.jwt_secret headers
            (service.parsers.profile body))))

  unfoldable pub axum_handle_auth_change_password : Headers → B → Outer service
  axum_handle_auth_change_password headers body =
      wrap_handler service at "POST" "/auth/change-password" headers (
        saving_accounts service 200 (
          drawing service λ draw. on_accounts service (
            handle_auth_change_password service.host service.crypto service.jwt_secret draw headers
              (service.parsers.password body))))

  unfoldable pub axum_handle_auth_onboarding_complete : Headers → Outer service
  axum_handle_auth_onboarding_complete headers =
      wrap_handler service at "POST" "/auth/onboarding-complete" headers (
        saving_accounts service 200 (
          on_accounts service (
            handle_auth_onboarding_complete service.host service.crypto service.jwt_secret
              headers)))

  unfoldable pub axum_handle_create_api_key : Headers → B → Outer service
  axum_handle_create_api_key headers body = wrap_handler service at "POST" "/api-keys" headers (
      saving_accounts service 201 (
        drawing service λ draw. on_accounts service (
          handle_create_api_key service.host service.crypto service.jwt_secret draw headers
            (service.parsers.key_label body))))

  unfoldable pub axum_handle_list_api_keys : Headers → Outer service
  axum_handle_list_api_keys headers = wrap_handler service at "GET" "/api-keys" headers (
      on_accounts service
        (handle_list_api_keys service.host service.crypto service.jwt_secret headers))

  unfoldable pub axum_handle_revoke_api_key : String → Headers → Outer service
  axum_handle_revoke_api_key key_id headers =
      wrap_handler service at "DELETE" (format ("/api-keys/" ∷ key_id ∷ [])) headers (
        saving_accounts service 200 (
          on_accounts service
            (handle_revoke_api_key service.host service.crypto service.jwt_secret headers key_id)))

  unfoldable pub axum_handle_list_entities : Headers → Outer service
  axum_handle_list_entities headers =
      wrap_handler service at "GET" "/entities" headers
        (on_memory service (handle_list_entities service.env))

  unfoldable pub axum_handle_delete_entity : String → String → Headers → Outer service
  axum_handle_delete_entity entity_type entity_id headers =
      wrap_handler service at "DELETE" (format ("/entities/" ∷ entity_type ∷ "/" ∷ entity_id ∷ []))
        headers
        (saving_store service 200 (λ st.
          on_memory service
            (handle_delete_entity service.env service.as_f64 service.show_number service.show_value
              service.debug service.crypto service.jwt_secret service.token st.auth_store at.now
              headers entity_type entity_id)
            st))

  unfoldable pub axum_handle_get_configure : Headers → Outer service
  axum_handle_get_configure headers = wrap_handler service at "GET" "/configure" headers λ st.
      let (status, body) =
        handle_get_configure service.llm_label service.embedding_label service.reranker_label in
      ((status, configure body), st)

  unfoldable pub axum_handle_get_configure_providers : Headers → Outer service
  axum_handle_get_configure_providers headers =
      wrap_handler service at "GET" "/configure/providers" headers
        λ st. let (status, body) = handle_get_configure_providers in ((status, providers body), st)

  unfoldable pub axum_handle_generate_instructions : Headers → Outer service
  axum_handle_generate_instructions headers =
      wrap_handler service at "POST" "/generate-instructions" headers λ st.
        let (status, body) =
          handle_generate_instructions service.llm_label service.embedding_label
            service.reranker_label (is_some service.token) in
        ((status, instructions body), st)

  unfoldable pub axum_handle_get_requests : Headers → Outer service
  axum_handle_get_requests headers = wrap_handler service at "GET" "/requests" headers λ st.
      on_memory service
        (handle_get_requests service.env service.as_f64 service.show_number service.show_value
          service.debug service.crypto service.jwt_secret service.token st.auth_store at.now headers
          st.request_log)
        st

  unfoldable pub axum_handle_create_memory : Headers → B → Outer service
  axum_handle_create_memory headers body = wrap_handler service at "POST" "/memories" headers (
      saving_all service 201 (
        on_memory service (
          handle_create_memory service.env service.crypto.as_bytes service.debug
            (service.parsers.create body))))

  unfoldable pub axum_handle_list_memory : Headers → Map String → Outer service
  axum_handle_list_memory headers query =
      wrap_handler service at "GET" "/memories" headers
        (on_memory service (handle_list_memory service.env query))

  unfoldable pub axum_handle_get_memory : String → Headers → Outer service
  axum_handle_get_memory id headers =
      wrap_handler service at "GET" (format ("/memories/" ∷ id ∷ [])) headers
        (on_memory service (handle_get_memory service.env id))

  unfoldable pub axum_handle_update_memory : String → Headers → B → Outer service
  axum_handle_update_memory id headers body =
      wrap_handler service at "PUT" (format ("/memories/" ∷ id ∷ [])) headers (
        saving_store service 200
          (on_memory service (handle_update_memory service.env id (service.parsers.update body))))

  unfoldable pub axum_handle_delete_memory : String → Headers → Outer service
  axum_handle_delete_memory id headers =
      wrap_handler service at "DELETE" (format ("/memories/" ∷ id ∷ [])) headers
        (saving_all service 200 (on_memory service (handle_delete_memory service.env id)))

  unfoldable pub axum_handle_search_memory : Headers → B → Outer service
  axum_handle_search_memory headers body = wrap_handler service at "POST" "/search" headers (
      on_memory service (
        handle_search_memory service.env service.as_f64 service.show_number service.show_value
          service.debug (service.parsers.search body)))

  unfoldable pub axum_handle_get_history : String → Headers → Map String → Outer service
  axum_handle_get_history id headers query =
      wrap_handler service at "GET" (format ("/memories/" ∷ id ∷ "/history" ∷ [])) headers
        (on_memory service (handle_get_history service.env id query))

  unfoldable pub axum_handle_delete_all : Headers → B → Outer service
  axum_handle_delete_all headers body = wrap_handler service at "DELETE" "/memories" headers (
      saving_all service 200 (λ st.
        on_memory service
          (handle_delete_all service.env service.as_f64 service.show_number service.show_value
            service.debug service.crypto service.jwt_secret service.token st.auth_store at.now
            headers (service.parsers.delete_all body))
          st))

  unfoldable pub axum_handle_reset_all : Headers → Outer service
  axum_handle_reset_all headers = wrap_handler service at "POST" "/reset" headers (
      saving_all service 200 (λ st.
        on_memory service
          (handle_reset_all service.env service.as_f64 service.show_number service.show_value
            service.debug service.crypto service.jwt_secret service.token st.auth_store at.now
            headers)
          st))
