-- ===== src/Server/Http/Handlers.antt =====
-- server/src/main.rs, `build_access_token` to `handle_revoke_api_key`: the handlers of accounts and keys.
-- A body that does not parse is the error text of serde.
use memoria_mcp.Prelude.{
  ℕ, ◌+◌, String, Bool, true, false, not, ◌||◌, Option, none, some, List, [], ◌∷◌, any, map, Result,
  ok, err, map_err, ◌==◌, format,
}
use memoria_mcp.Prelude.Text.{is_empty}
use memoria_mcp.Prelude.Exec.{pure, throw, lift, ◌>>=◌, ◌>>◌, gets}
use memoria_mcp.Server.Ascii.{take_chars}
use memoria_mcp.Server.Crypto.{Primitives, sha256_hex, verify_password}
use memoria_mcp.Server.Auth.{
  Host, User, ApiKey, RefreshError, Role, admin, Op, user_count, registration_is_allowed, new_user,
  insert_user, issue_refresh_token, rotate_refresh_token, find_user_by_email, find_user_by_id,
  update_profile, update_password_hash, mark_onboarding_complete, new_api_key, insert_api_key,
  find_api_keys_by_user, revoke_api_key, unix_now,
}
use memoria_mcp.Server.Http.{Headers, current_user_from_headers}

pub record RegisterRequest : Type 0 where
  pub name : String
  pub email : String
  pub password : String

pub record LoginRequest : Type 0 where
  pub email : String
  pub password : String

pub record UpdateProfileRequest : Type 0 where
  pub name : Option String
  pub email : Option String

pub record ChangePasswordRequest : Type 0 where
  pub current_password : String
  pub new_password : String

pub record AuthTokenResponse : Type 0 where
  pub access_token : String
  pub refresh_token : String
  pub token_type : String

pub record UserProfileResponse : Type 0 where
  pub id : String
  pub name : String
  pub email : String
  pub role : String
  pub onboarding_complete : Bool

pub record CreateApiKeyResponse : Type 0 where
  pub id : String
  pub key : String
  pub label : String
  pub key_prefix : String
  pub created_at : ℕ

pub record ApiKeyListItem : Type 0 where
  pub id : String
  pub label : String
  pub key_prefix : String
  pub created_at : ℕ
  pub revoked_at : Option ℕ

-- What serde writes into the body.
pub data Body : Type 0 where
  empty : Body
  error_body : String → Body
  tokens : AuthTokenResponse → Body
  setup_status : Bool → Body
  profile : UserProfileResponse → Body
  created_key : CreateApiKeyResponse → Body
  key_list : List ApiKeyListItem → Body

pub record Response : Type 0 where
  pub status : ℕ
  pub body : Body

abbrev pub reply : ℕ → Body → Response
reply status body = record { status = status; body = body }

abbrev pub failure : ℕ → String → Response
failure status message = reply status (error_body message)

-- An early `return` of a response ends the handler as an error ends an operation.
abbrev pub Handler : Type 0 → Type 0
Handler A = Op Response A

-- `if b { return response; }`
abbrev pub return_if : Bool → Response → Handler (Unit {0})
return_if true response = throw response
return_if false response = pure tt

-- A call whose result is matched on.
abbrev pub attempt : {E A : Type 0} → Op E A → Handler (Result E A)
attempt m s = let (r, s') = m s in (ok r, s')

abbrev malformed : String → Response
malformed e = failure 400 (format ("malformed request body: " ∷ e ∷ []))

abbrev pub body_of : {A : Type 0} → Result String A → Handler A
body_of request = lift (map_err malformed request)

abbrev pub role_str : Role → String
role_str admin = "admin"
role_str Role.user = "user"

abbrev pub profile_of : User → UserProfileResponse
profile_of u = record {
  id = u.id;
  name = u.name;
  email = u.email;
  role = role_str u.role;
  onboarding_complete = u.onboarding_complete;
}

abbrev pub item_of : ApiKey → ApiKeyListItem
item_of k = record {
  id = k.id;
  label = k.label;
  key_prefix = k.key_prefix;
  created_at = k.created_at;
  revoked_at = k.revoked_at;
}

abbrev pub bad_refresh_token : Response
bad_refresh_token = failure 401 "invalid or already-used refresh token"

abbrev pub sign_in_required : Response
sign_in_required = failure 401 "a valid access token identifying a real user is required"

module _ (host : Host) (crypto : Primitives) (jwt_secret : List ℕ) where
  unfoldable pub build_access_token : User → Handler String
  unfolding unix_now
  build_access_token u = do
    now ← unix_now host
    pure (
        crypto.jwt_encode
          (record {
            sub = some u.id;
            role = some (role_str u.role);
            iat = some now;
            exp = some (now + 900);
          })
          jwt_secret)

  unfoldable pub issue_auth_tokens : User → Handler AuthTokenResponse
  unfolding build_access_token issue_refresh_token
  issue_auth_tokens u = do
    access_token ← build_access_token u
    refresh_token ← issue_refresh_token host u.id
    pure (record {
      access_token = access_token;
      refresh_token = refresh_token;
      token_type = "bearer";
    })

  abbrev pub signed_in_reply : ℕ → User → Handler Response
  signed_in_reply status u = do t ← issue_auth_tokens u; pure (reply status (tokens t))

  -- `salt` counts the passwords hashed before.
  unfoldable pub handle_auth_register : ℕ → Result String RegisterRequest → Handler Response
  unfolding insert_user new_user issue_auth_tokens
  handle_auth_register salt body = do
    count ← gets user_count
    return_if (not (registration_is_allowed count))
        (failure 403 "registration is closed: an account already exists")
    request ← body_of body
    return_if (is_empty request.name || (is_empty request.email || is_empty request.password))
        (failure 400 "name, email, and password must not be empty")
    u ← new_user host request.name request.email (crypto.argon2_hash salt request.password) admin
    insert_user u
    signed_in_reply 201 u

  unfoldable pub handle_auth_setup_status : Handler Response
  handle_auth_setup_status = do
    count ← gets user_count
    pure (reply 200 (setup_status (not (registration_is_allowed count))))

  -- The hash that is checked where no account has the address.
  abbrev pub dummy_password_hash : String
  dummy_password_hash = crypto.argon2_hash 0 "dummy-password-for-login-timing-safety"

  abbrev pub password_to_check : Option User → String
  password_to_check none = dummy_password_hash
  password_to_check (some u) = u.password_hash

  unfoldable pub handle_auth_login : Result String LoginRequest → Handler Response
  unfolding issue_auth_tokens
  handle_auth_login body = do
    request ← body_of body
    found ← gets (find_user_by_email request.email)
    let password_ok = verify_password crypto request.password (password_to_check found) in
        elim found [
          | none ↦ throw (failure 401 "invalid email or password")
          | some u ↦ do
            return_if (not password_ok) (failure 401 "invalid email or password")
            signed_in_reply 200 u
        ]

  unfoldable pub refresh_for : Result RefreshError (String × String) → Handler Response
  unfolding build_access_token
  refresh_for (err e) = throw bad_refresh_token
  refresh_for (ok (new_jti, user_id)) = do
    found ← gets (find_user_by_id user_id)
    elim found [
      | none ↦ throw bad_refresh_token
      | some u ↦ do
        access_token ← build_access_token u
        pure (
            reply 200 (
              tokens (record {
                access_token = access_token;
                refresh_token = new_jti;
                token_type = "bearer";
              })))
    ]

  unfoldable pub handle_auth_refresh : Result String String → Handler Response
  unfolding refresh_for
  handle_auth_refresh body = do
    presented ← body_of body
    rotated ← attempt (rotate_refresh_token host presented)
    refresh_for rotated

  -- `let Some(user) = current_user_from_headers(..) else { return .. }`
  unfoldable pub signed_in : Headers → Handler User
  unfolding current_user_from_headers
  signed_in headers = do
    now ← unix_now host
    found ← gets (λ s. current_user_from_headers crypto jwt_secret s now headers)
    elim found [ none ↦ throw sign_in_required | some u ↦ pure u ]

  unfoldable pub handle_auth_me_get : Headers → Handler Response
  handle_auth_me_get headers = do u ← signed_in headers; pure (reply 200 (profile (profile_of u)))

  abbrev pub profile_or_missing : Option User → Handler Response
  profile_or_missing none = throw (failure 404 "user not found")
  profile_or_missing (some u) = pure (reply 200 (profile (profile_of u)))

  unfoldable pub handle_auth_me_patch :
      Headers → Result String UpdateProfileRequest → Handler Response
  handle_auth_me_patch headers body = do
    u ← signed_in headers
    request ← body_of body
    updated ← update_profile u.id request.name request.email
    profile_or_missing updated

  unfoldable pub handle_auth_change_password :
      ℕ → Headers → Result String ChangePasswordRequest → Handler Response
  handle_auth_change_password salt headers body = do
    u ← signed_in headers
    request ← body_of body
    return_if (not (verify_password crypto request.current_password u.password_hash))
        (failure 401 "current password is incorrect")
    return_if (is_empty request.new_password) (failure 400 "new_password must not be empty")
    _ ← update_password_hash u.id (crypto.argon2_hash salt request.new_password)
    pure (reply 200 (profile (profile_of u)))

  unfoldable pub handle_auth_onboarding_complete : Headers → Handler Response
  handle_auth_onboarding_complete headers = do
    u ← signed_in headers
    _ ← mark_onboarding_complete u.id
    updated ← gets (find_user_by_id u.id)
    profile_or_missing updated

  abbrev pub raw_key : ℕ → String
  raw_key draw = crypto.random_key draw 24

  -- `draw` counts the keys drawn before.
  unfoldable pub handle_create_api_key : ℕ → Headers → Result String String → Handler Response
  handle_create_api_key draw headers body = do
    u ← signed_in headers
    label ← body_of body
    return_if (is_empty label) (failure 400 "label must not be empty")
    key ←
        new_api_key host u.id label (sha256_hex crypto (crypto.as_bytes (raw_key draw)))
          (take_chars 8 (raw_key draw))
    insert_api_key key
    pure (
        reply 201 (
          created_key (record {
            id = key.id;
            key = raw_key draw;
            label = key.label;
            key_prefix = key.key_prefix;
            created_at = key.created_at;
          })))

  unfoldable pub handle_list_api_keys : Headers → Handler Response
  handle_list_api_keys headers = do
    u ← signed_in headers
    keys ← gets (find_api_keys_by_user u.id)
    pure (reply 200 (key_list (map item_of keys)))

  unfoldable pub handle_revoke_api_key : Headers → String → Handler Response
  handle_revoke_api_key headers key_id = do
    u ← signed_in headers
    keys ← gets (find_api_keys_by_user u.id)
    return_if (not (any (λ k. k.id == key_id) keys)) (failure 404 "api key not found")
    revoked ← revoke_api_key host key_id
    return_if (not revoked) (failure 404 "api key not found")
    pure (reply 200 empty)
