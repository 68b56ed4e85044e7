-- ===== src/Tests/Service.antt =====
-- The service's checks on concrete requests.
use memoria_mcp.Prelude.{
  ℕ, ◌≡◌, ◌≢◌, ◌↔◌, find, true, List, [], ◌∷◌, arith, refl, ◌+◌, String, ok, err, format, decimal,
}
use memoria_mcp.Server.Auth.{
  AuthStore, Host, RefreshError, has_jti, already_used, new, issue_refresh_token,
  rotate_refresh_token,
}
use memoria_mcp.Server.Auth.Fresh.{drawn_jti, IsActive, rotate-issue}
use memoria_mcp.Server.Auth.Tokens.{IsSpent, step, issue, done, rotate_once}
use memoria_mcp.Prelude.{List, [], ◌∷◌, ℕ, length, none, some, ◌==◌, Result}
use memoria_mcp.Server.Ascii.{strip_prefix}
use memoria_mcp.Server.Auth.{User, admin, find_user_by_email}
use memoria_mcp.Server.Crypto.Length.{length-pbkdf2_hmac_sha256}
use memoria_mcp.Tests.Services.{no_tokens}
use memoria_mcp.Server.Crypto.{pbkdf2_hmac_sha256, Primitives, invalid_signature, verify_password}
use memoria_mcp.Server.Http.Handlers.{
  LoginRequest, AuthTokenResponse, reply, tokens, handle_auth_login,
}
use memoria_mcp.Server.Http.Login.{IsCredential, login_lem}
use memoria_mcp.Server.Bytes.{constant_time_eq, constant_time_eq_lem}

constant_time_eq_lem_example :
    (constant_time_eq (107 ∷ 101 ∷ 121 ∷ []) (107 ∷ 101 ∷ 122 ∷ []) ≡ true)
    ↔ (◌≡◌ {A = List ℕ} (107 ∷ 101 ∷ 121 ∷ []) (107 ∷ 101 ∷ 122 ∷ []))
constant_time_eq_lem_example =
    constant_time_eq_lem (107 ∷ 101 ∷ 121 ∷ []) (107 ∷ 101 ∷ 122 ∷ [])
      (omega arith, (omega arith, (omega arith, tt)))
      (omega arith, (omega arith, (omega arith, tt)))

abbrev host : Host
host = record { seconds = λ n. 1000 + n; nanos = λ n. 5; pid = 7 }

-- One token issued, then rotated, then another one issued.
abbrev issued : AuthStore
issued = (issue_refresh_token host {E = RefreshError} "user-1" new).1

abbrev first_jti : String
first_jti = "jti-5-7-0"

abbrev rotated : AuthStore
rotated = (rotate_refresh_token host first_jti issued).1

abbrev later : AuthStore
later = (issue_refresh_token host {E = RefreshError} "user-1" rotated).1

rotates : rotate_refresh_token host first_jti issued ≡ (ok ("jti-5-7-1", "user-1"), rotated)
unfolding rotate_refresh_token issue_refresh_token format decimal
rotates = refl

rotate_once_example : rotate_refresh_token host first_jti later ≡ (err already_used, later)
rotate_once_example =
    rotate_once host first_jti issued rotated later ("jti-5-7-1", "user-1") rotates
      (step rotated later later (issue "user-1" rotated) (done later))

issues : issue_refresh_token host {E = RefreshError} "user-1" new ≡ (ok first_jti, issued)
unfolding issue_refresh_token format decimal
issues = refl

unused : find (has_jti (drawn_jti host issued)) issued.refresh_tokens ≡ none
unfolding issue_refresh_token format decimal
unused = refl

rotate-issue_example :
    (new_jti : String) × (s : AuthStore) × (rotate_refresh_token host first_jti issued
      ≡ (ok (new_jti, "user-1"), s))
    × (new_jti ≢ first_jti)
    × IsActive new_jti "user-1" s
    × IsSpent first_jti s
rotate-issue_example = rotate-issue host "user-1" first_jti new issued refl unused issues

-- Primitives that check a password by comparing it with the text stored.
abbrev plain : Primitives
plain = record {
  as_bytes = λ s. [];
  sha256 = λ bs. bs;
  hmac_sha256 = λ k m. m;
  base64_decode = λ s. none;
  random_key = λ n len. "key";
  argon2_hash = λ n password. password;
  argon2_verify = λ password stored. some (password == stored);
  jwt_encode = λ claims secret. "token";
  jwt_decode = λ token secret. err invalid_signature;
}

abbrev ann : User
ann = record {
  id = "user-1";
  name = "Ann";
  email = "Ann@example.org";
  password_hash = "secret";
  role = admin;
  created_at = 1;
  onboarding_complete = true;
}

abbrev one_account : AuthStore
one_account = record new { users = ann ∷ [] }

abbrev credentials : Result String LoginRequest
credentials = ok (record { email = "ann@EXAMPLE.org"; password = "secret" })

login_lem_example :
    ((t : AuthTokenResponse) × ((handle_auth_login host plain [] credentials one_account).0
        ≡ ok (reply 200 (tokens t))))
    ↔ IsCredential host plain [] credentials one_account
login_lem_example = login_lem host plain [] credentials one_account

ann-IsCredential : IsCredential host plain [] credentials one_account
unfolding find_user_by_email verify_password strip_prefix
ann-IsCredential =
    (record { email = "ann@EXAMPLE.org"; password = "secret" }, ann, refl, refl, refl)

-- A digest of 32 bytes.
abbrev digest : List ℕ
digest =
    1 ∷ 2 ∷ 3 ∷ 4 ∷ 5 ∷ 6 ∷ 7 ∷ 8 ∷ 1 ∷ 2 ∷ 3 ∷ 4 ∷ 5 ∷ 6 ∷ 7 ∷ 8 ∷ 1 ∷ 2 ∷ 3 ∷ 4 ∷ 5 ∷ 6 ∷ 7 ∷ 8
    ∷ 1 ∷ 2 ∷ 3 ∷ 4 ∷ 5 ∷ 6 ∷ 7 ∷ 8 ∷ []

length-pbkdf2_hmac_sha256_example :
    length
      (pbkdf2_hmac_sha256 (record no_tokens { hmac_sha256 = λ k m. digest }) (1 ∷ []) (2 ∷ []) 3 40)
    ≡ 40
length-pbkdf2_hmac_sha256_example =
    length-pbkdf2_hmac_sha256 (record no_tokens { hmac_sha256 = λ k m. digest }) (λ k m. refl)
      (1 ∷ []) (2 ∷ []) 3 40
