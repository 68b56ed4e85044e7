-- ===== src/Server/Service/Sound/Handlers.antt =====
-- server/src/main.rs: the handlers leave the log and the rate limiter to `wrap_handler`.
use memoria_mcp.Prelude.{◌≡◌, refl, String, false}
use memoria_mcp.Map.{Map}
use memoria_mcp.Float.{gt}
use memoria_mcp.Server.Http.{Headers}
use memoria_mcp.Server.Service.{Service, Arrival}
use memoria_mcp.Server.Service.Endpoints.{
  axum_handle_health, axum_handle_ready, axum_handle_auth_register, axum_handle_auth_setup_status,
  axum_handle_auth_login, axum_handle_auth_refresh, axum_handle_auth_me_get,
  axum_handle_auth_me_patch, axum_handle_auth_change_password, axum_handle_auth_onboarding_complete,
  axum_handle_create_api_key, axum_handle_list_api_keys, axum_handle_revoke_api_key,
  axum_handle_list_entities, axum_handle_delete_entity, axum_handle_get_configure,
  axum_handle_get_configure_providers, axum_handle_generate_instructions, axum_handle_get_requests,
  axum_handle_create_memory, axum_handle_list_memory, axum_handle_get_memory,
  axum_handle_update_memory, axum_handle_delete_memory, axum_handle_search_memory,
  axum_handle_get_history, axum_handle_delete_all, axum_handle_reset_all,
}
use memoria_mcp.Server.Service.Sound.{
  IsSound, wrap_handler-IsSound, saving_accounts-KeepsFrame, saving_store-KeepsFrame,
  saving_all-KeepsFrame,
}

module _ {F G N S D T B : Type 0} (service : Service F G N S D T B)
    (capped : (a b : G) → gt service.env.f64 (service.env.f64.min a b) b ≡ false)
    (less : (a b : G)
      → gt service.env.f64 a b ≡ false
      → gt service.env.f64 (service.env.f64.sub a (service.env.f64.literal 1 0)) b ≡ false)
    (at : Arrival) where
  pub axum_handle_health-IsSound : IsSound service (axum_handle_health service at)
  unfolding axum_handle_health
  axum_handle_health-IsSound =
      wrap_handler-IsSound service capped less at _ _ _ _ (λ st. (refl, refl))

  pub axum_handle_ready-IsSound : IsSound service (axum_handle_ready service at)
  unfolding axum_handle_ready
  axum_handle_ready-IsSound =
      wrap_handler-IsSound service capped less at _ _ _ _ (λ st. (refl, refl))

  pub axum_handle_auth_register-IsSound :
      (headers : Headers) (body : B)
      → IsSound service (axum_handle_auth_register service at headers body)
  unfolding axum_handle_auth_register
  axum_handle_auth_register-IsSound headers body =
      wrap_handler-IsSound service capped less at _ _ _ _
        (saving_accounts-KeepsFrame service _ _ (λ st. (refl, refl)))

  pub axum_handle_auth_setup_status-IsSound :
      IsSound service (axum_handle_auth_setup_status service at)
  unfolding axum_handle_auth_setup_status
  axum_handle_auth_setup_status-IsSound =
      wrap_handler-IsSound service capped less at _ _ _ _ (λ st. (refl, refl))

  pub axum_handle_auth_login-IsSound :
      (headers : Headers) (body : B)
      → IsSound service (axum_handle_auth_login service at headers body)
  unfolding axum_handle_auth_login
  axum_handle_auth_login-IsSound headers body =
      wrap_handler-IsSound service capped less at _ _ _ _
        (saving_accounts-KeepsFrame service _ _ (λ st. (refl, refl)))

  pub axum_handle_auth_refresh-IsSound :
      (headers : Headers) (body : B)
      → IsSound service (axum_handle_auth_refresh service at headers body)
  unfolding axum_handle_auth_refresh
  axum_handle_auth_refresh-IsSound headers body =
      wrap_handler-IsSound service capped less at _ _ _ _
        (saving_accounts-KeepsFrame service _ _ (λ st. (refl, refl)))

  pub axum_handle_auth_me_get-IsSound :
      (headers : Headers) → IsSound service (axum_handle_auth_me_get service at headers)
  unfolding axum_handle_auth_me_get
  axum_handle_auth_me_get-IsSound headers =
      wrap_handler-IsSound service capped less at _ _ _ _ (λ st. (refl, refl))

  pub axum_handle_auth_me_patch-IsSound :
      (headers : Headers) (body : B)
      → IsSound service (axum_handle_auth_me_patch service at headers body)
  unfolding axum_handle_auth_me_patch
  axum_handle_auth_me_patch-IsSound headers body =
      wrap_handler-IsSound service capped less at _ _ _ _
        (saving_accounts-KeepsFrame service _ _ (λ st. (refl, refl)))

  pub axum_handle_auth_change_password-IsSound :
      (headers : Headers) (body : B)
      → IsSound service (axum_handle_auth_change_password service at headers body)
  unfolding axum_handle_auth_change_password
  axum_handle_auth_change_password-IsSound headers body =
      wrap_handler-IsSound service capped less at _ _ _ _
        (saving_accounts-KeepsFrame service _ _ (λ st. (refl, refl)))

  pub axum_handle_auth_onboarding_complete-IsSound :
      (headers : Headers)
      → IsSound service (axum_handle_auth_onboarding_complete service at headers)
  unfolding axum_handle_auth_onboarding_complete
  axum_handle_auth_onboarding_complete-IsSound headers =
      wrap_handler-IsSound service capped less at _ _ _ _
        (saving_accounts-KeepsFrame service _ _ (λ st. (refl, refl)))

  pub axum_handle_create_api_key-IsSound :
      (headers : Headers) (body : B)
      → IsSound service (axum_handle_create_api_key service at headers body)
  unfolding axum_handle_create_api_key
  axum_handle_create_api_key-IsSound headers body =
      wrap_handler-IsSound service capped less at _ _ _ _
        (saving_accounts-KeepsFrame service _ _ (λ st. (refl, refl)))

  pub axum_handle_list_api_keys-IsSound :
      (headers : Headers) → IsSound service (axum_handle_list_api_keys service at headers)
  unfolding axum_handle_list_api_keys
  axum_handle_list_api_keys-IsSound headers =
      wrap_handler-IsSound service capped less at _ _ _ _ (λ st. (refl, refl))

  pub axum_handle_revoke_api_key-IsSound :
      (key_id : String) (headers : Headers)
      → IsSound service (axum_handle_revoke_api_key service at key_id headers)
  unfolding axum_handle_revoke_api_key
  axum_handle_revoke_api_key-IsSound key_id headers =
      wrap_handler-IsSound service capped less at _ _ _ _
        (saving_accounts-KeepsFrame service _ _ (λ st. (refl, refl)))

  pub axum_handle_list_entities-IsSound :
      (headers : Headers) → IsSound service (axum_handle_list_entities service at headers)
  unfolding axum_handle_list_entities
  axum_handle_list_entities-IsSound headers =
      wrap_handler-IsSound service capped less at _ _ _ _ (λ st. (refl, refl))

  pub axum_handle_delete_entity-IsSound :
      (entity_type : String) (entity_id : String) (headers : Headers)
      → IsSound service (axum_handle_delete_entity service at entity_type entity_id headers)
  unfolding axum_handle_delete_entity
  axum_handle_delete_entity-IsSound entity_type entity_id headers =
      wrap_handler-IsSound service capped less at _ _ _ _
        (saving_store-KeepsFrame service _ _ (λ st. (refl, refl)))

  pub axum_handle_get_configure-IsSound :
      (headers : Headers) → IsSound service (axum_handle_get_configure service at headers)
  unfolding axum_handle_get_configure
  axum_handle_get_configure-IsSound headers =
      wrap_handler-IsSound service capped less at _ _ _ _ (λ st. (refl, refl))

  pub axum_handle_get_configure_providers-IsSound :
      (headers : Headers) → IsSound service (axum_handle_get_configure_providers service at headers)
  unfolding axum_handle_get_configure_providers
  axum_handle_get_configure_providers-IsSound headers =
      wrap_handler-IsSound service capped less at _ _ _ _ (λ st. (refl, refl))

  pub axum_handle_generate_instructions-IsSound :
      (headers : Headers) → IsSound service (axum_handle_generate_instructions service at headers)
  unfolding axum_handle_generate_instructions
  axum_handle_generate_instructions-IsSound headers =
      wrap_handler-IsSound service capped less at _ _ _ _ (λ st. (refl, refl))

  pub axum_handle_get_requests-IsSound :
      (headers : Headers) → IsSound service (axum_handle_get_requests service at headers)
  unfolding axum_handle_get_requests
  axum_handle_get_requests-IsSound headers =
      wrap_handler-IsSound service capped less at _ _ _ _ (λ st. (refl, refl))

  pub axum_handle_create_memory-IsSound :
      (headers : Headers) (body : B)
      → IsSound service (axum_handle_create_memory service at headers body)
  unfolding axum_handle_create_memory
  axum_handle_create_memory-IsSound headers body =
      wrap_handler-IsSound service capped less at _ _ _ _
        (saving_all-KeepsFrame service _ _ (λ st. (refl, refl)))

  pub axum_handle_list_memory-IsSound :
      (headers : Headers) (query : Map String)
      → IsSound service (axum_handle_list_memory service at headers query)
  unfolding axum_handle_list_memory
  axum_handle_list_memory-IsSound headers query =
      wrap_handler-IsSound service capped less at _ _ _ _ (λ st. (refl, refl))

  pub axum_handle_get_memory-IsSound :
      (id : String) (headers : Headers)
      → IsSound service (axum_handle_get_memory service at id headers)
  unfolding axum_handle_get_memory
  axum_handle_get_memory-IsSound id headers =
      wrap_handler-IsSound service capped less at _ _ _ _ (λ st. (refl, refl))

  pub axum_handle_update_memory-IsSound :
      (id : String) (headers : Headers) (body : B)
      → IsSound service (axum_handle_update_memory service at id headers body)
  unfolding axum_handle_update_memory
  axum_handle_update_memory-IsSound id headers body =
      wrap_handler-IsSound service capped less at _ _ _ _
        (saving_store-KeepsFrame service _ _ (λ st. (refl, refl)))

  pub axum_handle_delete_memory-IsSound :
      (id : String) (headers : Headers)
      → IsSound service (axum_handle_delete_memory service at id headers)
  unfolding axum_handle_delete_memory
  axum_handle_delete_memory-IsSound id headers =
      wrap_handler-IsSound service capped less at _ _ _ _
        (saving_all-KeepsFrame service _ _ (λ st. (refl, refl)))

  pub axum_handle_search_memory-IsSound :
      (headers : Headers) (body : B)
      → IsSound service (axum_handle_search_memory service at headers body)
  unfolding axum_handle_search_memory
  axum_handle_search_memory-IsSound headers body =
      wrap_handler-IsSound service capped less at _ _ _ _ (λ st. (refl, refl))

  pub axum_handle_get_history-IsSound :
      (id : String) (headers : Headers) (query : Map String)
      → IsSound service (axum_handle_get_history service at id headers query)
  unfolding axum_handle_get_history
  axum_handle_get_history-IsSound id headers query =
      wrap_handler-IsSound service capped less at _ _ _ _ (λ st. (refl, refl))

  pub axum_handle_delete_all-IsSound :
      (headers : Headers) (body : B)
      → IsSound service (axum_handle_delete_all service at headers body)
  unfolding axum_handle_delete_all
  axum_handle_delete_all-IsSound headers body =
      wrap_handler-IsSound service capped less at _ _ _ _
        (saving_all-KeepsFrame service _ _ (λ st. (refl, refl)))

  pub axum_handle_reset_all-IsSound :
      (headers : Headers) → IsSound service (axum_handle_reset_all service at headers)
  unfolding axum_handle_reset_all
  axum_handle_reset_all-IsSound headers =
      wrap_handler-IsSound service capped less at _ _ _ _
        (saving_all-KeepsFrame service _ _ (λ st. (refl, refl)))
