-- ===== src/Server/Auth/Tokens.antt =====
-- server/src/auth_store.rs: a refresh token is good for one rotation.
use memoria_mcp.Prelude.{
  ◌≡◌, ◌⊎◌, inl, inr, refl, sym, ap, ◌∙◌, String, Bool, true, false, Option, some, List, [], ◌∷◌,
  ◌++◌, find, Result, ok, err, Bool-cases, Option-cases, arith, ◌==◌,
}
use memoria_mcp.Prelude.Exec.{◌>>=◌, pure}
use memoria_mcp.Server.Auth.{
  AuthStore, Host, RefreshTokenRecord, RefreshError, already_used, is_active, has_jti, revoke_token,
  update_first, next_id, unix_now, new_refresh_token, issue_refresh_token, rotate_refresh_token,
  User, ApiKey, insert_user, update_profile, update_password_hash, mark_onboarding_complete,
  change_user, insert_api_key, revoke_api_key, has_id, with_profile,
}

module _ {A : Type 0} (p : A → Bool) where
  find-append : (xs ys : List A) (x : A) → find p xs ≡ some x → find p (xs ++ ys) ≡ some x
  find-append [] ys x h = absurd cc
  find-append (z ∷ xs) ys x h = ground (arith, find-append xs ys x)

  -- What is found after the first match of `q` has changed: as before, or the changed one.
  find-update_first :
      (q : A → Bool) (f : A → A) (xs : List A) (x : A)
      → ((z : A) → p (f z) ≡ p z)
      → find p xs ≡ some x
      → (find p (update_first q f xs) ≡ some x) ⊎ (find p (update_first q f xs) ≡ some (f x))
  unfolding update_first
  find-update_first q f [] x same h = absurd cc
  find-update_first q f (z ∷ xs) x same h =
      ground (arith, same z, h, λ (k : find p xs ≡ some x). find-update_first q f xs x same k)

  find-update_first_self :
      (f : A → A) (xs : List A) (x : A)
      → ((z : A) → p (f z) ≡ p z)
      → find p xs ≡ some x
      → find p (update_first p f xs) ≡ some (f x)
  unfolding update_first
  find-update_first_self f [] x same h = absurd cc
  find-update_first_self f (z ∷ xs) x same h =
      ground (arith, same z, h, λ (k : find p xs ≡ some x). find-update_first_self f xs x same k)

-- The token has been spent: its record is there, and revoked.
abbrev pub IsSpent : String → AuthStore → Type 0
IsSpent jti s =
    (t : RefreshTokenRecord) × (find (has_jti jti) s.refresh_tokens ≡ some t)
    × (is_active t ≡ false)

module _ (host : Host) where
  pub rotate-IsSpent :
      (jti : String) (s s' : AuthStore) (out : String × String)
      → rotate_refresh_token host jti s ≡ (ok out, s')
      → IsSpent jti s'
  unfolding rotate_refresh_token new_refresh_token next_id unix_now
  rotate-IsSpent jti s s' out h = elim (Option-cases (find (has_jti jti) s.refresh_tokens)) [
    | inl missing ↦
        absurd (
          cc
            (ap (λ (t : Result RefreshError (String × String) × AuthStore). t.0) (rw missing at h)))
    | inr (t, found) ↦ elim (Bool-cases (is_active t)) [
      | inl active ↦
          let revoked = revoke_token (host.seconds s.readings) in
          let first =
            find-update_first_self (has_jti jti) revoked s.refresh_tokens t (λ z. refl) found in
          let done = rw active at (rw found at h) in
          (
            revoked t,
            ap (λ (x : AuthStore). find (has_jti jti) x.refresh_tokens)
                  (sym (ap (λ (t : Result RefreshError (String × String) × AuthStore). t.1) done))
                ∙ find-append (has_jti jti) _ _ (revoked t) first,
            refl,
          )
      | inr spent ↦ absurd (
          cc (
            ap (λ (t : Result RefreshError (String × String) × AuthStore). t.0)
              (rw spent at (rw found at h))))
    ]
  ]

  spent_refused :
      (jti : String) (s : AuthStore)
      → IsSpent jti s
      → rotate_refresh_token host jti s ≡ (err already_used, s)
  unfolding rotate_refresh_token
  spent_refused jti s (t, found, spent) = rw (found, spent)

  -- One call of the store, by any of the methods that change it.
  pub data Step : AuthStore → AuthStore → Type 0 where
    issue :
        (user_id : String) (s : AuthStore)
        → Step s (issue_refresh_token host {E = RefreshError} user_id s).1
    rotate : (jti : String) (s : AuthStore) → Step s (rotate_refresh_token host jti s).1
    add_user : (u : User) (s : AuthStore) → Step s (insert_user {E = RefreshError} u s).1
    profile :
        (id : String) (name email : Option String) (s : AuthStore)
        → Step s (update_profile {E = RefreshError} id name email s).1
    password :
        (id hash : String) (s : AuthStore)
        → Step s (update_password_hash {E = RefreshError} id hash s).1
    onboarding :
        (id : String) (s : AuthStore) → Step s (mark_onboarding_complete {E = RefreshError} id s).1
    add_key : (key : ApiKey) (s : AuthStore) → Step s (insert_api_key {E = RefreshError} key s).1
    revoke_key :
        (id : String) (s : AuthStore) → Step s (revoke_api_key host {E = RefreshError} id s).1

  -- Any sequence of calls.
  pub data Steps : AuthStore → AuthStore → Type 0 where
    done : (s : AuthStore) → Steps s s
    step : (s s' s'' : AuthStore) → Step s s' → Steps s' s'' → Steps s s''

  issue-IsSpent :
      (jti user_id : String) (s : AuthStore)
      → IsSpent jti s
      → IsSpent jti (issue_refresh_token host {E = RefreshError} user_id s).1
  unfolding issue_refresh_token new_refresh_token next_id unix_now
  issue-IsSpent jti user_id s (t, found, spent) =
      (t, find-append (has_jti jti) s.refresh_tokens _ t found, spent)

  rotate_keeps-IsSpent :
      (jti other : String) (s : AuthStore)
      → IsSpent jti s
      → IsSpent jti (rotate_refresh_token host other s).1
  unfolding rotate_refresh_token new_refresh_token next_id unix_now
  rotate_keeps-IsSpent jti other s (t, found, spent) =
      elim (Option-cases (find (has_jti other) s.refresh_tokens)) [
        | inl missing ↦ rw missing (t, found, spent)
        | inr (o, present) ↦ elim (Bool-cases (is_active o)) [
          | inr inactive ↦ rw (present, inactive) (t, found, spent)
          | inl active ↦
              let revoked = revoke_token (host.seconds s.readings) in
              rw (present, active)
                (elim (find-update_first (has_jti jti) (has_jti other) revoked s.refresh_tokens t
                  (λ z. refl) found) [
                    | inl before ↦ (t, find-append (has_jti jti) _ _ t before, spent)
                    | inr changed ↦
                        (revoked t, find-append (has_jti jti) _ _ (revoked t) changed, refl)
                  ])
        ]
      ]

  tokens-change_user :
      (id : String) (f : User → User) (s : AuthStore)
      → (change_user {E = RefreshError} id f s).1.refresh_tokens ≡ s.refresh_tokens
  unfolding change_user
  tokens-change_user id f s = elim (Option-cases (find (has_id id) s.users)) [
    | inl missing ↦ rw (missing, change_user)
    | inr (u, found) ↦ rw (found, change_user)
  ]

  tokens-test :
      (id : String) (f : User → User) (g : Option User → Bool) (s : AuthStore)
      → ((change_user {E = RefreshError} id f >>= λ found. pure (g found)) s).1.refresh_tokens
        ≡ s.refresh_tokens
  unfolding change_user
  tokens-test id f g s = elim (Option-cases (find (has_id id) s.users)) [
    | inl missing ↦ rw (missing, change_user)
    | inr (u, found) ↦ rw (found, change_user)
  ]

  tokens-revoke_api_key :
      (id : String) (s : AuthStore)
      → (revoke_api_key host {E = RefreshError} id s).1.refresh_tokens ≡ s.refresh_tokens
  unfolding revoke_api_key unix_now
  tokens-revoke_api_key id s = elim (Option-cases (find (λ (k : ApiKey). k.id == id) s.api_keys)) [
    | inl missing ↦ rw missing
    | inr (k, found) ↦ rw found
  ]

  keeps_tokens-IsSpent :
      (jti : String) (s s' : AuthStore)
      → s'.refresh_tokens ≡ s.refresh_tokens
      → IsSpent jti s
      → IsSpent jti s'
  keeps_tokens-IsSpent jti s s' same (t, found, spent) =
      (t, ap (find (has_jti jti)) same ∙ found, spent)

  Step-IsSpent : (jti : String) (s s' : AuthStore) → Step s s' → IsSpent jti s → IsSpent jti s'
  unfolding insert_user update_profile update_password_hash mark_onboarding_complete insert_api_key
  Step-IsSpent jti s s' (issue user_id _) h = issue-IsSpent jti user_id s h
  Step-IsSpent jti s s' (rotate other _) h = rotate_keeps-IsSpent jti other s h
  Step-IsSpent jti s s' (add_user u _) h = h
  Step-IsSpent jti s s' (profile id name email _) h =
      keeps_tokens-IsSpent jti s (update_profile {E = RefreshError} id name email s).1
        (tokens-change_user id (with_profile name email) s) h
  Step-IsSpent jti s s' (password id hash _) h =
      keeps_tokens-IsSpent jti s (update_password_hash {E = RefreshError} id hash s).1
        (tokens-test id (λ u. record u { password_hash = hash }) _ s) h
  Step-IsSpent jti s s' (onboarding id _) h =
      keeps_tokens-IsSpent jti s (mark_onboarding_complete {E = RefreshError} id s).1
        (tokens-test id (λ u. record u { onboarding_complete = true }) _ s) h
  Step-IsSpent jti s s' (add_key key _) h = h
  Step-IsSpent jti s s' (revoke_key id _) h =
      keeps_tokens-IsSpent jti s (revoke_api_key host {E = RefreshError} id s).1
        (tokens-revoke_api_key id s) h

  Steps-IsSpent : (jti : String) (s s' : AuthStore) → Steps s s' → IsSpent jti s → IsSpent jti s'
  Steps-IsSpent jti s s' (done _) h = h
  Steps-IsSpent jti s s' (step _ mid _ one more) h =
      Steps-IsSpent jti mid s' more (Step-IsSpent jti s mid one h)

  -- A refresh token is good for one rotation: once a rotation of it has succeeded, and whatever calls
  -- of the store come after, a second rotation is refused as already used and changes nothing.
  pub rotate_once :
      (jti : String) (s s' s'' : AuthStore) (out : String × String)
      → rotate_refresh_token host jti s ≡ (ok out, s')
      → Steps s' s''
      → rotate_refresh_token host jti s'' ≡ (err already_used, s'')
  rotate_once jti s s' s'' out h later =
      spent_refused jti s'' (Steps-IsSpent jti s' s'' later (rotate-IsSpent jti s s' out h))
