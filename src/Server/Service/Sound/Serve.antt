-- ===== src/Server/Service/Sound/Serve.antt =====
-- server/src/main.rs: every request that the router is given is refused or logged with its status.
use memoria_mcp.Prelude.{
  ◌≤◌, ◌≡◌, refl, ap, subst, sym, String, Bool, true, false, Option, none, some, List, [], ◌∷◌,
  find, length, ◌==◌,
}
use memoria_mcp.Float.{gt}
use memoria_mcp.Server.RequestLog.{max_entries, length-append-le}
use memoria_mcp.Server.Http.{Headers}
use memoria_mcp.Server.Service.{Service, State, Arrival, HttpResponse, Outer, to_axum_response}
use memoria_mcp.Server.Service.Router.{
  HttpRequest, serve_all, MethodRouter, serve, cors_middleware, body_size_limit_middleware,
  auth_gate_middleware, unknown_route_fallback, by_method, gated, routed,
}
use memoria_mcp.Server.Service.Sound.{
  Outcome, refused, logged, is_refusal, HasBounds, IsSound, AreSound, SoundAt, if_both,
  wrap_handler-IsSound,
}
use memoria_mcp.Server.Service.Sound.Routes.{open_routes-AreSound, authenticated_routes-AreSound}

with_headers :
    {F G S D : Type 0} {before after : State G S D} {response : HttpResponse F} (more : Headers)
    → Outcome before after response
    → Outcome before after (record response { headers = more })
with_headers more (refused e w a d l) = refused e w a d l
with_headers more (logged e s l) = logged e s l

refusal-SoundAt :
    {F G N S D T B : Type 0} (service : Service F G N S D T B) (response : HttpResponse F)
    (st : State G S D)
    → is_refusal response.status ≡ true
    → SoundAt service st (response, st)
refusal-SoundAt service response st e = (refused e refl refl refl refl, λ h. h)

module _ {F G N S D T B : Type 0} (service : Service F G N S D T B)
    (not_allowed : HttpRequest B → HttpResponse F) where
  module _ (capped : (a b : G) → gt service.env.f64 (service.env.f64.min a b) b ≡ false)
      (less : (a b : G)
        → gt service.env.f64 a b ≡ false
        → gt service.env.f64 (service.env.f64.sub a (service.env.f64.literal 1 0)) b ≡ false)
      (refusing : (request : HttpRequest B) → (not_allowed request).status ≡ 405) (at : Arrival)
      (request : HttpRequest B) where
    Passes : Option (String × Outer service) → Type 0
    Passes none = Unit
    Passes (some h) = IsSound service h.1

    find-Passes :
        (p : String × Outer service → Bool) (handlers : MethodRouter (Outer service))
        → AreSound service handlers
        → Passes (find p handlers)
    unfolding Passes
    find-Passes p [] sound = tt
    find-Passes p (h ∷ hs) (here, later) =
        if_both Passes (p h) (some h) (find p hs) here (find-Passes p hs later)

    by_method-IsSound :
        (handlers : MethodRouter (Outer service))
        → AreSound service handlers
        → IsSound service (by_method service not_allowed at request handlers)
    unfolding Passes
    by_method-IsSound handlers sound st =
        chosen (find (λ h. h.0 == request.method) handlers)
          (find-Passes (λ h. h.0 == request.method) handlers sound)
      where
        chosen :
            (o : Option (String × Outer service))
            → Passes o
            → SoundAt service st (elim o [ none ↦ (not_allowed request, st) | some h ↦ h.1 st ])
        chosen none passes =
            refusal-SoundAt service (not_allowed request) st (ap is_refusal (refusing request))
        chosen (some h) passes = passes st

    auth_gate-IsSound :
        (next : Outer service)
        → IsSound service next
        → IsSound service (auth_gate_middleware service not_allowed at request next)
    unfolding auth_gate_middleware to_axum_response
    auth_gate-IsSound next sound st =
        if_both (SoundAt service st) _ _ _ (refusal-SoundAt service _ st refl) (sound st)

    fallback-IsSound : IsSound service (unknown_route_fallback service not_allowed at request)
    unfolding unknown_route_fallback to_axum_response
    fallback-IsSound st =
        if_both (SoundAt service st) _ _ _ (refusal-SoundAt service _ st refl)
          (wrap_handler-IsSound service capped less at _ _ _ _ (λ st'. (refl, refl)) st)

    cors-IsSound :
        (next : Outer service)
        → IsSound service next
        → IsSound service (cors_middleware service not_allowed request next)
    unfolding cors_middleware
    cors-IsSound next sound st =
        let (outcome, bounds) = sound st in
        if_both (SoundAt service st) _ _ _ (refusal-SoundAt service _ st refl)
          (with_headers _ outcome, bounds)

    gated-IsSound :
        (handlers : MethodRouter (Outer service))
        → AreSound service handlers
        → IsSound service (gated service not_allowed at request handlers)
    gated-IsSound [] sound = fallback-IsSound
    gated-IsSound (h ∷ hs) sound = auth_gate-IsSound _ (by_method-IsSound (h ∷ hs) sound)

    routed-IsSound :
        (handlers : MethodRouter (Outer service))
        → AreSound service handlers
        → IsSound service (routed service not_allowed at request handlers)
    routed-IsSound [] sound =
        gated-IsSound _
          (authenticated_routes-AreSound service not_allowed capped less at request request.path)
    routed-IsSound (h ∷ hs) sound = by_method-IsSound (h ∷ hs) sound

    serve-IsSound : IsSound service (serve service not_allowed at request)
    unfolding serve body_size_limit_middleware to_axum_response
    serve-IsSound st = if_both (SoundAt service st) _ _ _ (refusal-SoundAt service _ st refl) (
        cors-IsSound _
          (routed-IsSound _
            (open_routes-AreSound service not_allowed capped less at request request.path))
          st)

  module _ (capped : (a b : G) → gt service.env.f64 (service.env.f64.min a b) b ≡ false)
      (less : (a b : G)
        → gt service.env.f64 a b ≡ false
        → gt service.env.f64 (service.env.f64.sub a (service.env.f64.literal 1 0)) b ≡ false)
      (refusing : (request : HttpRequest B) → (not_allowed request).status ≡ 405) where
    -- Whatever a request asks for, it is refused (401, 405, 413, 429, or 204 for a preflight) with the
    -- records, the accounts, the files and the log as they were, or exactly one entry is appended to the
    -- log, with the status that it is answered with. axum answers 405 to a method that a path has not; of
    -- the floats as in the theorem on the limiter.
    pub serve_lem :
        (at : Arrival) (request : HttpRequest B) (st : State G S D)
        → Outcome st
            (serve service not_allowed at request st).1
            (serve service not_allowed at request st).0
    serve_lem at request st = (serve-IsSound capped less refusing at request st).0

    -- However many requests the service answers, whatever they ask for, its log holds at most 1000 entries and
    -- no bucket of the rate limiter holds more than the capacity, if that was so at the start. The
    -- hypotheses are those of the theorem on one request.
    pub serve_all-IsBounded :
        (requests : List (Arrival × HttpRequest B)) (st : State G S D)
        → HasBounds service st
        → length st.request_log ≤ max_entries
        → HasBounds service (serve_all service not_allowed requests st)
          × (length (serve_all service not_allowed requests st).request_log ≤ max_entries)
    unfolding serve_all
    serve_all-IsBounded [] st h room = (h, room)
    serve_all-IsBounded ((at, request) ∷ later) st h room =
        let (outcome, bounds) = serve-IsSound capped less refusing at request st in
        serve_all-IsBounded later (serve service not_allowed at request st).1 (bounds h)
          (kept outcome)
      where
        kept :
            {response : HttpResponse F} {after : State G S D}
            → Outcome st after response
            → length after.request_log ≤ max_entries
        kept (refused e w a d log) = subst (λ l. length l ≤ max_entries) (sym log) room
        kept (logged e s log) =
            subst (λ l. length l ≤ max_entries) (sym log) (length-append-le e st.request_log)
