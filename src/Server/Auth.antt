-- ===== src/Server/Auth.antt =====
-- server/src/auth_store.rs: the accounts, API keys and refresh tokens. Each list stands behind its own
-- lock; `ticket` is the 64-bit counter of ids and `readings` counts the readings of the clock and of the
-- random source.
pub mod Tokens
pub mod Snapshot
pub mod Fresh
use memoria_mcp.Prelude.{
  ℕ, ◌+◌, ◌%◌, ◌^◌, String, Bool, true, false, not, ◌&&◌, Option, none, some, List, [], ◌∷◌, ◌++◌,
  length, find, retain, if◌then◌else◌, ok, ◌==◌, format, decimal, eqb,
}
use memoria_mcp.Prelude.Exec.{Exec, pure, throw, ◌>>=◌, ◌>>◌, modify, gets}
use memoria_mcp.Server.Ascii.{eq_ignore_ascii_case}

pub data Role : Type 0 where
  admin user : Role

pub record User : Type 0 where
  pub id : String
  pub name : String
  pub email : String
  pub password_hash : String
  pub role : Role
  pub created_at : ℕ
  pub onboarding_complete : Bool

pub record ApiKey : Type 0 where
  pub id : String
  pub user_id : String
  pub label : String
  pub key_hash : String
  pub key_prefix : String
  pub created_at : ℕ
  pub revoked_at : Option ℕ

pub record RefreshTokenRecord : Type 0 where
  pub jti : String
  pub user_id : String
  pub issued_at : ℕ
  pub revoked_at : Option ℕ

abbrev pub is_none : Option ℕ → Bool
is_none none = true
is_none (some n) = false

abbrev pub is_active_key : ApiKey → Bool
is_active_key k = is_none k.revoked_at

abbrev pub is_active : RefreshTokenRecord → Bool
is_active t = is_none t.revoked_at

pub data RefreshError : Type 0 where
  unknown already_used : RefreshError

abbrev pub registration_is_allowed : ℕ → Bool
registration_is_allowed existing_user_count = eqb existing_user_count 0

pub record AuthStore : Type 0 where
  pub users : List User
  pub api_keys : List ApiKey
  pub refresh_tokens : List RefreshTokenRecord
  pub ticket : ℕ
  pub readings : ℕ

-- The clock in seconds at its n-th reading, in nanoseconds when the n-th id is drawn, and the process.
pub record Host : Type 0 where
  pub seconds : ℕ → ℕ
  pub nanos : ℕ → ℕ
  pub pid : ℕ

abbrev pub Op : Type 0 → Type 0 → Type 0
Op E A = Exec E AuthStore A

abbrev pub new : AuthStore
new = record { users = []; api_keys = []; refresh_tokens = []; ticket = 0; readings = 0 }

-- `iter_mut().find(p)` and an assignment through the result.
unfoldable pub update_first : {A : Type 0} → (A → Bool) → (A → A) → List A → List A
update_first p f [] = []
update_first p f (x ∷ xs) = let rest = update_first p f xs in if p x then f x ∷ xs else x ∷ rest

abbrev pub has_jti : String → RefreshTokenRecord → Bool
has_jti jti t = t.jti == jti

abbrev pub revoke_token : ℕ → RefreshTokenRecord → RefreshTokenRecord
revoke_token now t = record t { revoked_at = some now }

module _ (host : Host) where
  unfoldable pub next_id : {E : Type 0} → String → Op E String
  next_id prefix s = (
    ok (
        format (
          prefix
          ∷ "-"
          ∷ decimal (host.nanos s.ticket)
          ∷ "-"
          ∷ decimal host.pid
          ∷ "-"
          ∷ decimal s.ticket
          ∷ [])),
    record s { ticket = (s.ticket + 1) % 2 ^ 64 },
  )

  unfoldable pub unix_now : {E : Type 0} → Op E ℕ
  unix_now s = (ok (host.seconds s.readings), record s { readings = s.readings + 1 })

  unfoldable pub new_user : {E : Type 0} → String → String → String → Role → Op E User
  new_user name email password_hash role = do
    id ← next_id "user"
    created_at ← unix_now
    pure (record {
      id = id;
      name = name;
      email = email;
      password_hash = password_hash;
      role = role;
      created_at = created_at;
      onboarding_complete = false;
    })

  unfoldable pub new_api_key : {E : Type 0} → String → String → String → String → Op E ApiKey
  new_api_key user_id label key_hash key_prefix = do
    id ← next_id "key"
    created_at ← unix_now
    pure (record {
      id = id;
      user_id = user_id;
      label = label;
      key_hash = key_hash;
      key_prefix = key_prefix;
      created_at = created_at;
      revoked_at = none;
    })

  unfoldable pub new_refresh_token : {E : Type 0} → String → Op E RefreshTokenRecord
  new_refresh_token user_id = do
    jti ← next_id "jti"
    issued_at ← unix_now
    pure (record { jti = jti; user_id = user_id; issued_at = issued_at; revoked_at = none })

  abbrev push_token : {E : Type 0} → RefreshTokenRecord → Op E (Unit {0})
  push_token t = modify (λ s. record s { refresh_tokens = s.refresh_tokens ++ t ∷ [] })

  unfoldable pub issue_refresh_token : {E : Type 0} → String → Op E String
  unfolding new_refresh_token next_id unix_now
  issue_refresh_token user_id = do t ← new_refresh_token user_id; push_token t; pure t.jti

  unfoldable pub rotate_refresh_token : String → Op RefreshError (String × String)
  unfolding new_refresh_token next_id unix_now update_first
  rotate_refresh_token presented_jti = do
    found ← gets (λ s. find (has_jti presented_jti) s.refresh_tokens)
    elim found [
      | none ↦ throw unknown
      | some existing ↦ if not (is_active existing) then throw already_used else do
        now ← unix_now
        modify (λ s. record s {
          refresh_tokens = update_first (has_jti presented_jti) (revoke_token now) s.refresh_tokens;
        })
        t ← new_refresh_token existing.user_id
        push_token t
        pure (t.jti, existing.user_id)
    ]

  unfoldable pub revoke_api_key : {E : Type 0} → String → Op E Bool
  unfolding unix_now update_first
  revoke_api_key id = do
    found ← gets (λ s. find (λ k. k.id == id) s.api_keys)
    elim found [
      | none ↦ pure false
      | some k ↦ do
        now ← unix_now
        modify (λ s. record s {
          api_keys =
              update_first (λ k. k.id == id) (λ k. record k { revoked_at = some now }) s.api_keys;
        })
        pure true
    ]

module _ {E : Type 0} where
  unfoldable pub insert_user : User → Op E (Unit {0})
  insert_user u = modify (λ s. record s { users = s.users ++ u ∷ [] })

  unfoldable pub insert_api_key : ApiKey → Op E (Unit {0})
  insert_api_key key = modify (λ s. record s { api_keys = s.api_keys ++ key ∷ [] })

abbrev pub user_count : AuthStore → ℕ
user_count s = length s.users

abbrev pub has_id : String → User → Bool
has_id id u = u.id == id

unfoldable pub find_user_by_email : String → AuthStore → Option User
unfolding eq_ignore_ascii_case
find_user_by_email email s = find (λ u. eq_ignore_ascii_case u.email email) s.users

unfoldable pub find_user_by_id : String → AuthStore → Option User
find_user_by_id id s = find (has_id id) s.users

unfoldable pub find_api_keys_by_user : String → AuthStore → List ApiKey
find_api_keys_by_user user_id s = retain (λ k. k.user_id == user_id) s.api_keys

unfoldable pub find_active_api_key_by_hash : String → AuthStore → Option ApiKey
find_active_api_key_by_hash key_hash s =
    find (λ k. k.key_hash == key_hash && is_active_key k) s.api_keys

abbrev or_else : Option String → String → String
or_else none old = old
or_else (some new) old = new

abbrev pub with_profile : Option String → Option String → User → User
with_profile name email u = record u { name = or_else name u.name; email = or_else email u.email }

abbrev is_some : Option User → Bool
is_some none = false
is_some (some u) = true

module _ {E : Type 0} where
  -- The first user with the id is changed and returned.
  unfoldable pub change_user : String → (User → User) → Op E (Option User)
  unfolding update_first
  change_user id f s = elim (find (has_id id) s.users) [
    | none ↦ (ok none, s)
    | some u ↦ (ok (some (f u)), record s { users = update_first (has_id id) f s.users })
  ]

  unfoldable pub update_profile : String → Option String → Option String → Op E (Option User)
  unfolding change_user
  update_profile id name email = change_user id (with_profile name email)

  unfoldable pub update_password_hash : String → String → Op E Bool
  unfolding change_user
  update_password_hash id new_password_hash = do
    found ← change_user id (λ u. record u { password_hash = new_password_hash })
    pure (is_some found)

  unfoldable pub mark_onboarding_complete : String → Op E Bool
  unfolding change_user
  mark_onboarding_complete id = do
    found ← change_user id (λ u. record u { onboarding_complete = true })
    pure (is_some found)
