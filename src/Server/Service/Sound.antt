-- ===== src/Server/Service/Sound.antt =====
-- server/src/main.rs: what every request leaves behind in the log and in the rate limiter.
pub mod Handlers
pub mod Routes
pub mod Serve
use memoria_mcp.Prelude.{
  ℕ, ◌≤◌, ◌≡◌, refl, sym, ap, ◌∙◌, subst, String, Bool, true, false, not, ◌&&◌, ◌||◌, Option, none,
  some, List, [], ◌∷◌, All, find, length, if◌then◌else◌, eqb, ltb, Bool-cases, Option-cases, inl,
  inr, arith, ◌==◌,
}
use memoria_mcp.Map.{Map}
use memoria_mcp.Memory.{World}
use memoria_mcp.Float.{gt, ge}
use memoria_mcp.Server.RateLimiter.{
  RateLimiter, check_and_consume, IsBounded, check_and_consume-IsBounded,
}
use memoria_mcp.Server.RequestLog.{RequestLogEntry, Log, append, max_entries, length-append-le}
use memoria_mcp.Server.Http.{Headers, find_header, is_authorized}
use memoria_mcp.Server.Service.{
  to_axum_response, Service, State, Arrival, HttpResponse, Outer, Inner, wrap_handler, on_memory,
  on_accounts, drawing, then_if, too_many, run_logged, saving_accounts, saving_store, saving_all,
  keep_accounts, keep_store, keep_history,
}

-- What the service answers where no handler ran, or none was let through.
abbrev pub is_refusal : ℕ → Bool
is_refusal n = eqb n 204 || (eqb n 401 || (eqb n 405 || (eqb n 413 || eqb n 429)))

pub if_both :
    {A : Type 0} (P : A → Type 0) (b : Bool) (x y : A) → P x → P y → P (if b then x else y)
if_both P true x y h k = h
if_both P false x y h k = k

module _ {F G S D : Type 0} where
  -- A request was refused with nothing but the rate limiter changed, or it was logged with its status.
  pub data Outcome (before after : State G S D) (response : HttpResponse F) : Type 0 where
    refused :
        is_refusal response.status ≡ true
        → after.world ≡ before.world
        → after.auth_store ≡ before.auth_store
        → after.disk ≡ before.disk
        → after.request_log ≡ before.request_log
        → Outcome before after response
    logged :
        (e : RequestLogEntry)
        → e.status ≡ response.status
        → after.request_log ≡ append e before.request_log
        → Outcome before after response

module _ {F G N S D T B : Type 0} (service : Service F G N S D T B) where
  abbrev pub HasBounds : State G S D → Type 0
  HasBounds st = IsBounded service.env.f64 service.as_secs_f64 st.rate_limiter

  abbrev pub SoundAt : State G S D → HttpResponse F × State G S D → Type 0
  SoundAt st (response, after) = Outcome st after response × (HasBounds st → HasBounds after)

  abbrev pub IsSound : Outer service → Type 0
  IsSound o = (st : State G S D) → SoundAt st (o st)

  abbrev pub AreSound : List (String × Outer service) → Type 0
  AreSound handlers = All (λ h. IsSound h.1) handlers

  -- The inner handlers leave the frame alone.
  abbrev pub KeepsFrame : Inner service → Type 0
  KeepsFrame f =
      (st : State G S D)
      → ((f st).1.request_log ≡ st.request_log) × ((f st).1.rate_limiter ≡ st.rate_limiter)

  then_if-KeepsFrame :
      (when : ℕ → Bool) (saving : State G S D → State G S D) (f : Inner service)
      → ((st : State G S D)
          → ((saving st).request_log ≡ st.request_log)
            × ((saving st).rate_limiter ≡ st.rate_limiter))
      → KeepsFrame f
      → KeepsFrame (then_if service when saving f)
  then_if-KeepsFrame when saving f saves keeps st =
      let (log, limiter) = keeps st in
      let (log', limiter') = saves (f st).1 in
      if_both
        (λ (x : State G S D). (x.request_log ≡ st.request_log) × (x.rate_limiter ≡ st.rate_limiter))
        (when (f st).0.0) (saving (f st).1) (f st).1 (log' ∙ log, limiter' ∙ limiter) (log, limiter)

  pub saving_accounts-KeepsFrame :
      (status : ℕ) (f : Inner service)
      → KeepsFrame f
      → KeepsFrame (saving_accounts service status f)
  unfolding saving_accounts
  saving_accounts-KeepsFrame status f =
      then_if-KeepsFrame (eqb status) (keep_accounts service) f (λ st. (refl, refl))

  pub saving_store-KeepsFrame :
      (status : ℕ) (f : Inner service) → KeepsFrame f → KeepsFrame (saving_store service status f)
  unfolding saving_store
  saving_store-KeepsFrame status f =
      then_if-KeepsFrame (λ n. service.persist_json_snapshot && eqb status n) (keep_store service) f
        (λ st. (refl, refl))

  pub saving_all-KeepsFrame :
      (status : ℕ) (f : Inner service) → KeepsFrame f → KeepsFrame (saving_all service status f)
  unfolding saving_all
  saving_all-KeepsFrame status f =
      then_if-KeepsFrame (λ n. service.persist_json_snapshot && eqb status n)
        (λ st. keep_history service (keep_store service st)) f (λ st. (refl, refl))

  module _ (capped : (a b : G) → gt service.env.f64 (service.env.f64.min a b) b ≡ false)
      (less : (a b : G)
        → gt service.env.f64 a b ≡ false
        → gt service.env.f64 (service.env.f64.sub a (service.env.f64.literal 1 0)) b ≡ false) where
    pub wrap_handler-IsSound :
        (at : Arrival) (method path : String) (headers : Headers) (f : Inner service)
        → KeepsFrame f
        → IsSound (wrap_handler service at method path headers f)
    unfolding wrap_handler run_logged to_axum_response
    wrap_handler-IsSound at method path headers f keeps st =
        let checked =
          check_and_consume service.env.f64 service.as_secs_f64 at.peer_ip at.instant
            st.rate_limiter in
        let st₁ = record st { rate_limiter = checked.1 } in
        let (log, limiter) = keeps st₁ in
        let bounded : HasBounds st → HasBounds st₁ = λ h.
          (check_and_consume-IsBounded service.env.f64 service.as_secs_f64 st.rate_limiter
            at.peer_ip at.instant capped less h).0 in
        if_both (SoundAt st) checked.0 (run_logged service at method path headers f st₁)
          (too_many service, st₁)
          (
            logged _ refl (ap (append _) log),
            λ h. subst (IsBounded service.env.f64 service.as_secs_f64) (sym limiter) (bounded h),
          )
          (refused refl refl refl refl refl, bounded)
