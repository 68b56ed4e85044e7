-- ===== src/Server/Http.antt =====
-- server/src/main.rs: the handlers of accounts and keys, and the check of a request. A handler takes what
-- serde makes of its body, and answers a status with the value that serde writes out.
pub mod Handlers
pub mod Login
pub mod Requests
pub mod Memories
pub mod Configure
pub mod Admin
pub mod Routes
pub mod BadRequest
use memoria_mcp.Prelude.{
  is_some_and, ℕ, ◌+◌, ◌-◌, ◌^◌, String, Bool, true, false, not, ◌&&◌, ◌||◌, Option, none, some,
  List, [], ◌∷◌, find, any, map, if◌then◌else◌, Result, ok, err, ◌>>=◌, ◌==◌, format, eqb,
}
use memoria_mcp.Prelude.Text.{is_empty, trim_matches}
use memoria_mcp.Server.Ascii.{eq_ignore_ascii_case, strip_prefix, parse_unsigned}
use memoria_mcp.Server.Bytes.{constant_time_eq}
use memoria_mcp.Server.Crypto.{Primitives, Claims, decode_jwt, sha256_hex}
use memoria_mcp.Server.Auth.{
  AuthStore, Host, User, Role, admin, find_active_api_key_by_hash, find_user_by_id,
}
use Prim.Native.Char.{Char}

abbrev pub Headers : Type 0
Headers = List (String × String)

unfoldable pub find_header : Headers → String → Option String
unfolding eq_ignore_ascii_case
find_header headers name = elim (find (λ h. eq_ignore_ascii_case h.0 name) headers) [
  | none ↦ none
  | some h ↦ some h.1
]

unfoldable pub bearer_token : Headers → Option String
unfolding find_header strip_prefix
bearer_token headers = elim (find_header headers "authorization") [
  | none ↦ none
  | some value ↦ strip_prefix "Bearer " value
]

abbrev pub refusal : String
refusal =
    "refusing to start: no MEMORIA_API_KEY configured and MEMORIA_ALLOW_NO_AUTH=1 not set (ADR-14)"

abbrev without_key : Option String → Result String (Option String)
without_key none = err refusal
without_key (some flag) = if flag == "1" then ok none else err refusal

unfoldable pub resolve_auth_config : Option String → Option String → Result String (Option String)
resolve_auth_config none allow_no_auth_env = without_key allow_no_auth_env
resolve_auth_config (some key) allow_no_auth_env =
    if not (is_empty key) then ok (some key) else without_key allow_no_auth_env

module _ (crypto : Primitives) (jwt_secret : List ℕ) where
  -- `now` is the clock's reading, if it is read.
  unfoldable pub token_is_accepted : String → String → ℕ → Bool
  token_is_accepted admin_key token now =
      if constant_time_eq (crypto.as_bytes token) (crypto.as_bytes admin_key)
      then true
      else elim (decode_jwt crypto token jwt_secret now) [ ok _ ↦ true | err _ ↦ false ]

  unfoldable pub key_is_accepted : AuthStore → String → Bool
  key_is_accepted s key =
      elim (find_active_api_key_by_hash (sha256_hex crypto (crypto.as_bytes key)) s) [
        | none ↦ false
        | some _ ↦ true
      ]

  unfoldable pub is_authorized : Option String → AuthStore → ℕ → Headers → Bool
  is_authorized none s now headers = true
  is_authorized (some admin_key) s now headers =
      is_some_and (bearer_token headers) (λ token. token_is_accepted admin_key token now)
      || is_some_and (find_header headers "x-api-key") (key_is_accepted s)

  unfoldable pub current_user_from_headers : AuthStore → ℕ → Headers → Option User
  current_user_from_headers s now headers = elim (bearer_token headers) [
    | none ↦ none
    | some token ↦ elim (decode_jwt crypto token jwt_secret now) [
      | err _ ↦ none
      | ok claims ↦ elim claims.sub [ none ↦ none | some sub ↦ find_user_by_id sub s ]
    ]
  ]

  abbrev pub is_admin : User → Bool
  is_admin u = elim u.role [ admin ↦ true | Role.user ↦ false ]

  abbrev pub has_admin_key : Option String → Headers → Bool
  has_admin_key none headers = false
  has_admin_key (some admin_key) headers =
      is_some_and (bearer_token headers)
        (λ token. constant_time_eq (crypto.as_bytes token) (crypto.as_bytes admin_key))

  unfoldable pub caller_is_admin : Option String → AuthStore → ℕ → Headers → Bool
  caller_is_admin admin_key s now headers =
      if has_admin_key admin_key headers
      then true
      else is_some_and (current_user_from_headers s now headers) is_admin

unfoldable pub validate_cors_origin : Option String → Result String (Option String)
validate_cors_origin none = ok none
validate_cors_origin (some origin) =
    if origin == "*"
    then err
        "MEMORIA_CORS_ORIGIN must not be \"*\" -- CORS is restricted to exactly one configured origin, never a wildcard (see ADR-17)"
    else ok (some origin)

unfoldable pub resolve_cors_origin : Option String → Option String
resolve_cors_origin none = none
resolve_cors_origin (some origin) = if not (is_empty origin) then some origin else none

unfoldable pub cors_allow_origin_header : Option String → Option String → Option (String × String)
cors_allow_origin_header none request_origin = none
cors_allow_origin_header (some configured) none = none
cors_allow_origin_header (some configured) (some request_origin) =
    if configured == request_origin then some ("Access-Control-Allow-Origin", configured) else none

pub record EngineLimits : Type 0 where
  pub top_k : ℕ
  pub content_bytes : ℕ
  pub metadata_bytes : ℕ

abbrev pub usize_max : ℕ
usize_max = 2 ^ 64 - 1

-- `debug` is `{raw:?}`, and `is_whitespace` what `trim` removes.
module _ (debug : String → String) (is_whitespace : Char → Bool) where
  unfoldable pub parse_positive_limit : String → Option String → ℕ → Result String ℕ
  parse_positive_limit name none default = ok default
  parse_positive_limit name (some raw) default =
      elim (parse_unsigned usize_max (trim_matches is_whitespace raw)) [
        | none ↦ err (format (name ∷ " must be a positive integer, got " ∷ debug raw ∷ []))
        | some parsed ↦
            if eqb parsed 0
            then err (format (name ∷ " must be greater than zero" ∷ []))
            else ok parsed
      ]

  unfoldable pub resolve_engine_limits :
      Option String → Option String → Option String → Result String EngineLimits
  resolve_engine_limits max_top_k max_content_bytes max_metadata_bytes = do
    top_k ← parse_positive_limit "MEMORIA_MAX_TOP_K" max_top_k 1000
    content_bytes ← parse_positive_limit "MEMORIA_MAX_CONTENT_BYTES" max_content_bytes 1048576
    metadata_bytes ← parse_positive_limit "MEMORIA_MAX_METADATA_BYTES" max_metadata_bytes 8192
    ok (record { top_k = top_k; content_bytes = content_bytes; metadata_bytes = metadata_bytes })
