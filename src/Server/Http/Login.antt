-- ===== src/Server/Http/Login.antt =====
-- server/src/main.rs: who can log in.
use memoria_mcp.Prelude.{
  ◌≡◌, ◌↔◌, refl, ap, String, true, some, List, ℕ, Result, ok, map_err-eq-ok, Option-cases,
  Bool-cases, inl, inr,
}
use memoria_mcp.Prelude.Exec.{>>=-eq-ok, run_lem}
use memoria_mcp.Server.Auth.{
  AuthStore, Host, User, find_user_by_email, issue_refresh_token, new_refresh_token, next_id,
  unix_now,
}
use memoria_mcp.Server.Crypto.{Primitives, verify_password}
use memoria_mcp.Server.Http.Handlers.{
  LoginRequest, AuthTokenResponse, Response, reply, tokens, body_of, issue_auth_tokens,
  build_access_token, signed_in_reply, handle_auth_login,
}

module _ (host : Host) (crypto : Primitives) (jwt_secret : List ℕ) where
  -- The request parsed, it has the address of an account, letter case aside, and its password fits the
  -- hash stored for that account.
  abbrev pub IsCredential : Result String LoginRequest → AuthStore → Type 0
  IsCredential body s =
      (request : LoginRequest) × (u : User) × (body ≡ ok request)
      × (find_user_by_email request.email s ≡ some u)
      × (verify_password crypto request.password u.password_hash ≡ true)

  logged_in-IsCredential :
      (body : Result String LoginRequest) (s s' : AuthStore) (r : Response)
      → handle_auth_login host crypto jwt_secret body s ≡ (ok r, s')
      → IsCredential body s
  unfolding handle_auth_login
  logged_in-IsCredential body s s' r h =
      let (request, parsed, h₁) = >>=-eq-ok (body_of body) _ s h in
      elim (Option-cases (find_user_by_email request.email s)) [
        | inl missing ↦
            absurd (cc (ap (λ (t : Result Response Response × AuthStore). t.0) (rw missing at h₁)))
        | inr (u, found) ↦
            elim (Bool-cases (verify_password crypto request.password u.password_hash)) [
              | inl fits ↦ (request, u, map_err-eq-ok _ body parsed, found, fits)
              | inr wrong ↦ absurd (
                  cc (
                    ap (λ (t : Result Response Response × AuthStore). t.0)
                      (rw wrong at (rw found at h₁))))
            ]
      ]

  tokens_issued :
      (status : ℕ) (u : User) (s : AuthStore)
      → (t : AuthTokenResponse) × ((signed_in_reply host crypto jwt_secret status u s).0
          ≡ ok (reply status (tokens t)))
  unfolding issue_auth_tokens build_access_token issue_refresh_token new_refresh_token next_id
      unix_now
  tokens_issued status u s = (_, refl)

  IsCredential-logged_in :
      (body : Result String LoginRequest) (s : AuthStore)
      → IsCredential body s
      → (t : AuthTokenResponse) × ((handle_auth_login host crypto jwt_secret body s).0
          ≡ ok (reply 200 (tokens t)))
  unfolding handle_auth_login
  IsCredential-logged_in body s (request, u, parsed, found, fits) =
      let (t, issued) = tokens_issued 200 u s in (t, rw (parsed, found, fits) issued)

  -- A login answers 200 with tokens exactly when the request parsed, has the address of an account,
  -- letter case aside, and has a password that fits the hash stored for that account.
  pub login_lem :
      (body : Result String LoginRequest) (s : AuthStore)
      → ((t : AuthTokenResponse) × ((handle_auth_login host crypto jwt_secret body s).0
            ≡ ok (reply 200 (tokens t))))
        ↔ IsCredential body s
  login_lem body s = (
    λ h.
        logged_in-IsCredential body s _ _
          (run_lem (handle_auth_login host crypto jwt_secret body) s h.1),
    IsCredential-logged_in body s,
  )
