-- ===== src/Server/Auth/Fresh.antt =====
-- server/src/auth_store.rs: a refresh token that was issued can be rotated.
use memoria_mcp.Server.Auth.Tokens.{IsSpent, rotate-IsSpent}
use memoria_mcp.Prelude.{◌+◌, ◌%◌, ◌^◌, ◌≢◌, subst}
use memoria_mcp.Prelude.{
  ◌≡◌, refl, sym, ap, ◌∙◌, String, Bool, true, none, some, List, [], ◌∷◌, ◌++◌, find, Result, ok,
  ◌==◌, eq_iff, Bool-cases, inl, inr, arith, format, decimal,
}
use memoria_mcp.Server.Auth.{
  update_first, revoke_token, is_active, AuthStore, Host, RefreshTokenRecord, RefreshError, has_jti,
  next_id, unix_now, new_refresh_token, issue_refresh_token, rotate_refresh_token,
}

find-append-none :
    {A : Type 0} (p : A → Bool) (xs ys : List A) → find p xs ≡ none → find p (xs ++ ys) ≡ find p ys
find-append-none p [] ys h = refl
find-append-none p (x ∷ xs) ys h = elim (Bool-cases (p x)) [
  | inl here ↦ absurd (cc (rw here at h))
  | inr other ↦ rw other (find-append-none p xs ys (rw other at h))
]

find-update_first-none :
    {A : Type 0} (p q : A → Bool) (f : A → A) (xs : List A)
    → ((z : A) → p (f z) ≡ p z)
    → find p xs ≡ none
    → find p (update_first q f xs) ≡ none
unfolding update_first
find-update_first-none p q f [] same h = refl
find-update_first-none p q f (z ∷ xs) same h =
    ground (arith, same z, h, λ (k : find p xs ≡ none). find-update_first-none p q f xs same k)

-- The id names a token of the account that can be rotated.
abbrev pub IsActive : String → String → AuthStore → Type 0
IsActive jti user_id s =
    (t : RefreshTokenRecord) × (find (has_jti jti) s.refresh_tokens ≡ some t)
    × (is_active t ≡ true)
    × (t.user_id ≡ user_id)

module _ (host : Host) where
  -- The id that is drawn next.
  abbrev pub drawn_jti : AuthStore → String
  drawn_jti s = format (
      "jti"
      ∷ "-"
      ∷ decimal (host.nanos s.ticket)
      ∷ "-"
      ∷ decimal host.pid
      ∷ "-"
      ∷ decimal s.ticket
      ∷ [])

  -- The store after the rotation of an active token: it is revoked, and a new one of the same account stands last.
  rotated : String → AuthStore → RefreshTokenRecord → AuthStore
  rotated jti s t = record s {
    ticket = (s.ticket + 1) % 2 ^ 64;
    readings = s.readings + 1 + 1;
    refresh_tokens =
        update_first (has_jti jti) (revoke_token (host.seconds s.readings)) s.refresh_tokens
        ++ record {
          jti = drawn_jti s;
          user_id = t.user_id;
          issued_at = host.seconds (s.readings + 1);
          revoked_at = none;
        }
          ∷ [];
  }

  rotate-active :
      (jti : String) (s : AuthStore) (t : RefreshTokenRecord)
      → find (has_jti jti) s.refresh_tokens ≡ some t
      → is_active t ≡ true
      → rotate_refresh_token host jti s ≡ (ok (drawn_jti s, t.user_id), rotated jti s t)
  unfolding rotate_refresh_token new_refresh_token next_id unix_now rotated
  rotate-active jti s t found active = rw (rotate_refresh_token, found, active) refl

  -- A refresh token that was just issued, with an id that no token had before, rotates, where the id drawn next
  -- is new too: the call returns another id for the same account, the store holds an active token of the
  -- account under it, and the token that was presented is spent.
  pub rotate-issue :
      (user_id jti : String) (s s₁ : AuthStore)
      → find (has_jti jti) s.refresh_tokens ≡ none
      → find (has_jti (drawn_jti s₁)) s₁.refresh_tokens ≡ none
      → issue_refresh_token host {E = RefreshError} user_id s ≡ (ok jti, s₁)
      → (new_jti : String) × (s₂ : AuthStore) × (rotate_refresh_token host jti s₁
          ≡ (ok (new_jti, user_id), s₂))
        × (new_jti ≢ jti)
        × IsActive new_jti user_id s₂
        × IsSpent jti s₂
  unfolding issue_refresh_token new_refresh_token next_id unix_now rotated
  rotate-issue user_id jti s s₁ fresh unused e =
      let t : RefreshTokenRecord = record {
        jti = drawn_jti s;
        user_id = user_id;
        issued_at = host.seconds s.readings;
        revoked_at = none;
      } in
      let moved : s.refresh_tokens ++ t ∷ [] ≡ s₁.refresh_tokens =
        ap (λ (x : Result RefreshError String × AuthStore). x.1.refresh_tokens) e in
      let same : (drawn_jti s == jti) ≡ true =
        (eq_iff (drawn_jti s) jti).1
          (cc (ap (λ (x : Result RefreshError String × AuthStore). x.0) e)) in
      let last : find (has_jti jti) (t ∷ []) ≡ some t = rw same refl in
      let found : find (has_jti jti) s₁.refresh_tokens ≡ some t =
        ap (find (has_jti jti)) (sym moved)
        ∙ find-append-none (has_jti jti) s.refresh_tokens (t ∷ []) fresh
        ∙ last in
      let ran = rotate-active jti s₁ t found refl in
      let new : RefreshTokenRecord = record {
        jti = drawn_jti s₁;
        user_id = user_id;
        issued_at = host.seconds (s₁.readings + 1);
        revoked_at = none;
      } in
      let revoked =
        update_first (has_jti jti) (revoke_token (host.seconds s₁.readings)) s₁.refresh_tokens in
      let own : (drawn_jti s₁ == drawn_jti s₁) ≡ true =
        (eq_iff (drawn_jti s₁) (drawn_jti s₁)).1 refl in
      (
        drawn_jti s₁,
        rotated jti s₁ t,
        ran,
        (λ equal.
            absurd
              (cc (found, subst (λ j. find (has_jti j) s₁.refresh_tokens ≡ none) equal unused))),
        (
          new,
          find-append-none (has_jti (drawn_jti s₁)) revoked (new ∷ []) (
                find-update_first-none (has_jti (drawn_jti s₁)) (has_jti jti)
                  (revoke_token (host.seconds s₁.readings)) s₁.refresh_tokens (λ z. refl) unused)
              ∙ rw own refl,
          refl,
          refl,
        ),
        rotate-IsSpent host jti s₁ (rotated jti s₁ t) (drawn_jti s₁, user_id) ran,
      )
