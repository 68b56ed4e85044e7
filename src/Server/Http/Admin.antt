-- ===== src/Server/Http/Admin.antt =====
-- server/src/main.rs: whom the service lets through.
use memoria_mcp.Prelude.{
  is_some_and, is_some_and_iff, ||-eq-true, ||-true_left, ||-true_right, ℕ, ◌≡◌, ◌↔◌, ◌⊎◌, inl, inr,
  refl, ap, ◌∙◌, String, true, false, Option, none, some, List, All, ok, Bool-cases, Option-cases,
  Result-cases,
}
use memoria_mcp.Server.Bytes.{constant_time_eq, constant_time_eq_lem, IsByte}
use memoria_mcp.Server.Crypto.{Primitives, Claims, decode_jwt, sha256_hex}
use memoria_mcp.Server.Auth.{AuthStore, User, Role, ApiKey, admin, find_active_api_key_by_hash}
use memoria_mcp.Server.Http.{
  Headers, bearer_token, find_header, caller_is_admin, current_user_from_headers, is_admin,
  has_admin_key, is_authorized, token_is_accepted, key_is_accepted,
}

module _ (crypto : Primitives) (jwt_secret : List ℕ)
    (as_bytes_inj : (s t : String) → crypto.as_bytes s ≡ crypto.as_bytes t → s ≡ t)
    (as_bytes-IsByte : (s : String) → All IsByte (crypto.as_bytes s)) where
  same_token :
      (s t : String) → (constant_time_eq (crypto.as_bytes s) (crypto.as_bytes t) ≡ true) ↔ (s ≡ t)
  same_token s t =
      let (there, back) =
        constant_time_eq_lem (crypto.as_bytes s) (crypto.as_bytes t) (as_bytes-IsByte s)
          (as_bytes-IsByte t) in
      (λ e. as_bytes_inj s t (there e), λ e. back (ap crypto.as_bytes e))

  -- The token of the request is the admin key, or one that was signed here and has not run out.
  abbrev pub IsGoodToken : String → String → ℕ → Type 0
  IsGoodToken admin_key token now =
      (token ≡ admin_key)
      ⊎ ((claims : Claims) × (decode_jwt crypto token jwt_secret now ≡ ok claims))

  token_is_accepted_lem :
      (admin_key token : String) (now : ℕ)
      → (token_is_accepted crypto jwt_secret admin_key token now ≡ true)
        ↔ IsGoodToken admin_key token now
  unfolding token_is_accepted
  token_is_accepted_lem admin_key token now =
      elim (Bool-cases (constant_time_eq (crypto.as_bytes token) (crypto.as_bytes admin_key))) [
        | inl same ↦ (λ e. inl ((same_token token admin_key).0 same), λ e. rw same refl)
        | inr other ↦ elim (Result-cases (decode_jwt crypto token jwt_secret now)) [
          | inl (claims, decoded) ↦ (λ e. inr (claims, decoded), λ e. rw (other, decoded) refl)
          | inr (error, failed) ↦ (
            λ e. absurd (cc (rw (other, failed) at e)),
            λ e. elim e [
              | inl same ↦ absurd (cc (other, (same_token token admin_key).1 same))
              | inr (claims, decoded) ↦ absurd (cc (failed, decoded))
            ],
          )
        ]
      ]

  -- The request carries such a token, or an API key whose hash is that of a key that is not revoked.
  abbrev pub IsAccepted : String → AuthStore → ℕ → Headers → Type 0
  IsAccepted admin_key s now headers =
      ((token : String) × (bearer_token headers ≡ some token) × IsGoodToken admin_key token now)
      ⊎ ((key : String) × (a : ApiKey) × (find_header headers "x-api-key" ≡ some key)
          × (find_active_api_key_by_hash (sha256_hex crypto (crypto.as_bytes key)) s ≡ some a))

  key_is_accepted_lem :
      (s : AuthStore) (key : String)
      → (key_is_accepted crypto jwt_secret s key ≡ true) ↔ (
          (a : ApiKey) × (find_active_api_key_by_hash (sha256_hex crypto (crypto.as_bytes key)) s
            ≡ some a))
  unfolding key_is_accepted
  key_is_accepted_lem s key =
      elim (Option-cases
        (find_active_api_key_by_hash (sha256_hex crypto (crypto.as_bytes key)) s)) [
          | inl none_found ↦ (
            λ e. absurd (cc (rw (none_found, key_is_accepted) at e)),
            λ (a, e). absurd (cc (none_found, e)),
          )
          | inr (a, found) ↦ (λ e. (a, found), λ e. rw (found, key_is_accepted) refl)
        ]

  -- Where an admin key is configured, a request passes exactly when it carries the admin key or a token
  -- that decodes and has not run out, or an API key with the hash of one that is not revoked. Of the
  -- encoding of texts as bytes: it is injective, and gives bytes.
  pub is_authorized_lem :
      (admin_key : String) (s : AuthStore) (now : ℕ) (headers : Headers)
      → (is_authorized crypto jwt_secret (some admin_key) s now headers ≡ true)
        ↔ IsAccepted admin_key s now headers
  unfolding is_authorized
  is_authorized_lem admin_key s now headers =
      let by_token = λ (token : String). token_is_accepted crypto jwt_secret admin_key token now in
      let by_key = λ (key : String). key_is_accepted crypto jwt_secret s key in
      let (has_token, token_back) = is_some_and_iff (bearer_token headers) by_token in
      let (has_key, key_back) = is_some_and_iff (find_header headers "x-api-key") by_key in
      let one = is_some_and (bearer_token headers) by_token in
      let other = is_some_and (find_header headers "x-api-key") by_key in
      (
        λ e. elim (||-eq-true one other e) [
          | inl h ↦
              let (token, shown, good) = has_token h in
              inl (token, shown, (token_is_accepted_lem admin_key token now).0 good)
          | inr h ↦
              let (key, shown, good) = has_key h in
              let (a, found) = (key_is_accepted_lem s key).0 good in inr (key, a, shown, found)
        ],
        λ h. elim h [
          | inl (token, shown, good) ↦
              ||-true_left one other
                (token_back (token, shown, (token_is_accepted_lem admin_key token now).1 good))
          | inr (key, a, shown, found) ↦
              ||-true_right one other
                (key_back (key, shown, (key_is_accepted_lem s key).1 (a, found)))
        ],
      )

  -- The token is the admin key, or it decodes and names an account that is an administrator's.
  abbrev pub IsAdmin : Option String → AuthStore → ℕ → Headers → Type 0
  IsAdmin admin_key s now headers =
      ((key : String) × (admin_key ≡ some key) × (bearer_token headers ≡ some key))
      ⊎ ((u : User) × (current_user_from_headers crypto jwt_secret s now headers ≡ some u)
          × (u.role ≡ admin))

  has_admin_key_lem :
      (admin_key : Option String) (headers : Headers)
      → (has_admin_key crypto jwt_secret admin_key headers ≡ true)
        ↔ ((key : String) × (admin_key ≡ some key) × (bearer_token headers ≡ some key))
  has_admin_key_lem none headers = (λ e. absurd (cc e), λ h. absurd (cc h.1))
  has_admin_key_lem (some key) headers =
      let equal =
        λ (token : String). constant_time_eq (crypto.as_bytes token) (crypto.as_bytes key) in
      let (there, back) = is_some_and_iff (bearer_token headers) equal in
      (
        λ e.
            let (token, shown, same) = there e in
            (key, refl, shown ∙ ap some ((same_token token key).0 same)),
        λ h. back (key, cc (h.1, h.2), (same_token key key).1 refl),
      )

  is_admin_iff : (u : User) → (is_admin crypto jwt_secret u ≡ true) ↔ (u.role ≡ admin)
  is_admin_iff u = go u.role
    where
      go : (r : Role) → ((elim r [ admin ↦ true | Role.user ↦ false ]) ≡ true) ↔ (r ≡ admin)
      go admin = (λ _. refl, λ _. refl)
      go Role.user = (λ e. absurd (cc e), λ e. absurd (cc e))

  -- The service takes a caller for an administrator exactly when the request carries the configured admin
  -- key, or a token that identifies an account with that role. Without an admin key, and without
  -- such an account, nobody is one.
  pub caller_is_admin_lem :
      (admin_key : Option String) (s : AuthStore) (now : ℕ) (headers : Headers)
      → (caller_is_admin crypto jwt_secret admin_key s now headers ≡ true)
        ↔ IsAdmin admin_key s now headers
  unfolding caller_is_admin
  caller_is_admin_lem admin_key s now headers =
      let account = current_user_from_headers crypto jwt_secret s now headers in
      let (there, back) = is_some_and_iff account (is_admin crypto jwt_secret) in
      let (key_there, key_back) = has_admin_key_lem admin_key headers in
      elim (Bool-cases (has_admin_key crypto jwt_secret admin_key headers)) [
        | inl has ↦ (λ e. inl (key_there has), λ e. rw has refl)
        | inr lacks ↦ (
          λ e.
              let (u, found, role) = there (rw lacks at e) in
              inr (u, found, (is_admin_iff u).0 role),
          λ h. elim h [
            | inl with_key ↦ absurd (cc (lacks, key_back with_key))
            | inr (u, found, role) ↦ rw lacks (back (u, found, (is_admin_iff u).1 role))
          ],
        )
      ]
