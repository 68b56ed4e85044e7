-- ===== src/Mcp/Tools/Agreement.antt =====
-- mcp/src/main.rs: a request that a handler answers, beside the call of the engine that the handler makes.
pub mod Calls
use memoria_mcp.Prelude.{
  ℕ, ◌≤◌, map, ◌≡◌, refl, ap, sym, subst, String, Bool, true, false, Option, none, some, List, [],
  ◌∷◌, Result, ok, err, map_ok, map_err, format, eqb, decimal, Result-cases, Option-cases,
  Bool-cases, inl, inr,
}
use memoria_mcp.Prelude.Exec.{Exec, ◌>>=◌, pure, continue}
use memoria_mcp.Map
use memoria_mcp.Map.{Map}
use memoria_mcp.Server.Numerals.{parse_unsigned-decimal}
use memoria_mcp.Store.{VectorRecord}
use memoria_mcp.Error.{CoreError, show_error}
use memoria_mcp.Memory.{World, Env, Op}
use memoria_mcp.Filter.Parse.{Value}
use memoria_mcp.Server.Http.Requests
use memoria_mcp.Server.Http.Requests.{
  Body, Response, reply, error_response, scope_from_optional, DeleteAllRequest,
}
use memoria_mcp.Server.Http.Memories.{
  handle_create_memory, handle_get_memory, handle_update_memory, handle_delete_memory,
  handle_list_entities, handle_search_memory, create_request, request_scope, request_messages,
  parse_optional_filters, handle_get_history, number_param, handle_delete_all,
}
use memoria_mcp.Mcp.Remote
use memoria_mcp.Mcp.Remote.{
  Http, RemoteClient, Request, to, get, post, put, no_body, update_body, scope_body, is_success,
  send, ensure_success, error_message, found_at,
}
use memoria_mcp.Mcp.Tools
use memoria_mcp.Server.Crypto.{Primitives}
use memoria_mcp.Server.Auth.{AuthStore}
use memoria_mcp.Server.Http.{Headers, caller_is_admin, usize_max}
use memoria_mcp.Llm.{user, with_images}
use memoria_mcp.Memory.Search.{search}
use memoria_mcp.Memory.Add.{add}
use memoria_mcp.Memory.Entities.{list_entities}
use memoria_mcp.Memory.Records.{get_record, update, delete, reset, history}
use memoria_mcp.Mcp.Tools.{
  event_name, found, search_memories, get_memory, get_memories, memory_history, add_memory,
  update_memory, delete_memory, delete_all_memories, list_memory_entities, Call, Answer, Outcome,
  respond, shown, call_local, call_remote,
}

-- What a tool answers, given what its backend gave.
abbrev pub told :
    {F S : Type 0} → Result String (Outcome F) × World S → Result String (Answer F) × World S
told (r, w) = (elim r [ ok outcome ↦ respond outcome | err e ↦ err e ], w)

abbrev pub SameAnswer : {A : Type 0} → Result String A → Result String A → Type 0
SameAnswer (ok a) (ok b) = a ≡ b
SameAnswer (ok a) (err e) = ⊥
SameAnswer (err e) (ok b) = ⊥
SameAnswer (err e) (err e') = Unit

-- The same state, and the same answer or an error on both sides.
abbrev pub Agrees :
    {F S : Type 0}
    → Result String (Answer F) × World S
    → Result String (Answer F) × World S
    → Type 0
Agrees (r, w) (r', w') = (w ≡ w') × SameAnswer r r'

-- Two programs that go on from what they did first.
bind-Agrees :
    {F S A B : Type 0} (m : Exec String (World S) A) (m' : Exec String (World S) B)
    (k : A → Exec String (World S) (Outcome F)) (k' : B → Exec String (World S) (Outcome F))
    (w : World S) (x : Result String A × World S) (y : Result String B × World S)
    → m w ≡ x
    → m' w ≡ y
    → Agrees (told (continue x.0 k x.1)) (told (continue y.0 k' y.1))
    → Agrees (told ((m >>= k) w)) (told ((m' >>= k') w))
bind-Agrees {S = S} {A = A} {B = B} m m' k k' w x y e e' h =
    subst
      (λ (z : Result String A × World S). Agrees (told (continue z.0 k z.1)) (told ((m' >>= k') w)))
      (sym e)
      (subst
        (λ (z : Result String B × World S).
          Agrees (told (continue x.0 k x.1)) (told (continue z.0 k' z.1)))
        (sym e') h)

shown-eq :
    {S A : Type 0} (op : Op S A) (w : World S) (r : Result CoreError A)
    → (op w).0 ≡ r
    → shown op w ≡ (map_err show_error r, (op w).1)
shown-eq {A = A} op w r e = ap (λ (r : Result CoreError A). (map_err show_error r, (op w).1)) e

module _ {F N S : Type 0} (http : Http F N (World S)) (client : RemoteClient) where
  -- The request comes to the handler, and its answer back.
  abbrev pub IsServedBy : (World S → Response F × World S) → Request F N → Type 0
  IsServedBy handler request =
      (w : World S) → http.send request w ≡ (ok (handler w).0, (handler w).1)

  error-status : (e : CoreError) → is_success (error_response {F = F} e).status ≡ false
  unfolding error_response
  error-status (CoreError.validation msg) = refl
  error-status (CoreError.not_found msg) = refl
  error-status (CoreError.config msg) = refl
  error-status (CoreError.provider msg source) = refl

  -- A step that both make, and what comes after it.
  pub step-Agrees :
      {A : Type 0} (m : Exec String (World S) A) (op : Op S A)
      (k k' : A → Exec String (World S) (Outcome F)) (w : World S)
      → ((a : A) → (op w).0 ≡ ok a → m w ≡ (ok a, (op w).1))
      → ((e : CoreError) → (op w).0 ≡ err e → (t : String) × (m w ≡ (err t, (op w).1)))
      → ((a : A) (w₁ : World S) → Agrees (told (k a w₁)) (told (k' a w₁)))
      → Agrees (told ((m >>= k) w)) (told ((shown op >>= k') w))
  step-Agrees m op k k' w eq_ok eq_err later = elim (Result-cases (op w).0) [
    | inl (a, done) ↦
        bind-Agrees m (shown op) k k' w _ _ (eq_ok a done) (shown-eq op w (ok a) done)
          (later a (op w).1)
    | inr (e, failed) ↦
        let (t, failed') = eq_err e failed in
        bind-Agrees m (shown op) k k' w _ _ failed' (shown-eq op w (err e) failed) (refl, tt)
  ]

  module _ {A : Type 0} (op : Op S A) (code : ℕ) (wrap : A → Body F) (parse : Body F → Option A)
      (request : Request F N) (good : is_success code ≡ true)
      (inverse : (a : A) → parse (wrap a) ≡ some a)
      (serves : IsServedBy (Requests.answer op (λ a. reply code (wrap a))) request) where
    send-eq-ok :
        (w : World S) (a : A)
        → (op w).0 ≡ ok a
        → send http client parse request w ≡ (ok a, (op w).1)
    unfolding send
    send-eq-ok w a done = rw (serves w, done, good, inverse a) refl

    send-eq-err :
        (w : World S) (e : CoreError)
        → (op w).0 ≡ err e
        → (t : String) × (send http client parse request w ≡ (err t, (op w).1))
    unfolding send
    send-eq-err w e failed =
        (error_message http client (error_response e), rw (serves w, failed, error-status e) refl)

    pub send-Agrees :
        (f : A → Answer F) (w : World S)
        → Agrees
            (told ((send http client parse request >>= λ a. pure (Tools.answer (f a))) w))
            (told ((shown op >>= λ a. pure (Tools.answer (f a))) w))
    unfolding respond
    send-Agrees f w =
        step-Agrees (send http client parse request) op _ _ w (send-eq-ok w) (send-eq-err w)
          (λ a w₁. (refl, refl))

  module _ (op : Op S (Unit {0})) (request : Request F N)
      (serves : IsServedBy (Requests.answer op (λ _. reply 200 Requests.empty_body)) request) where
    pub ensure_success-eq-ok :
        (w : World S) (a : Unit {0})
        → (op w).0 ≡ ok a
        → ensure_success http client request w ≡ (ok a, (op w).1)
    unfolding ensure_success
    ensure_success-eq-ok w a done = rw (serves w, done) refl

    pub ensure_success-eq-err :
        (w : World S) (e : CoreError)
        → (op w).0 ≡ err e
        → (t : String) × (ensure_success http client request w ≡ (err t, (op w).1))
    unfolding ensure_success
    ensure_success-eq-err w e failed =
        (error_message http client (error_response e), rw (serves w, failed, error-status e) refl)

  module _ (id : String) (op : Op S (Option (VectorRecord F))) (request : Request F N)
      (serves : IsServedBy
        (Requests.answer op λ found. elim found [
          | some r ↦ reply 200 (Requests.stored r)
          | none ↦ Requests.failure 404 (format ("not found: " ∷ id ∷ []))
        ])
        request) where
    get-eq-ok :
        (w : World S) (r : Option (VectorRecord F))
        → (op w).0 ≡ ok r
        → found_at http client request w ≡ (ok r, (op w).1)
    unfolding found_at
    get-eq-ok w none done = rw (serves w, done) refl
    get-eq-ok w (some r) done = rw (serves w, done) refl

    abbrev pub lookup : Exec String (World S) (Outcome F)
    lookup = found_at http client request >>= λ r. pure (found id r)

    abbrev pub lookup_here : Exec String (World S) (Outcome F)
    lookup_here = shown op >>= λ r. pure (found id r)

    failed-Agrees :
        (w : World S) (e : CoreError)
        → (op w).0 ≡ err e
        → eqb (error_response {F = F} e).status 404 ≡ false
        → Agrees (told (lookup w)) (told (lookup_here w))
    unfolding found_at
    failed-Agrees w e failed plain =
        bind-Agrees (found_at http client request) (shown op) _ _ w
          (err (error_message http client (error_response e)), (op w).1) _
          (rw (serves w, failed, plain, error-status e) refl) (shown-eq op w _ failed) (refl, tt)

    pub lookup-Agrees : (w : World S) → Agrees (told (lookup w)) (told (lookup_here w))
    unfolding found_at respond error_response
    lookup-Agrees w =
        let m = found_at http client request in
        elim (Result-cases (op w).0) [
          | inl (none, done) ↦
              bind-Agrees m (shown op) _ _ w _ _ (get-eq-ok w none done) (shown-eq op w _ done)
                (refl, tt)
          | inl (some r, done) ↦
              bind-Agrees m (shown op) _ _ w _ _ (get-eq-ok w (some r) done) (shown-eq op w _ done)
                (refl, refl)
          | inr (CoreError.not_found msg, failed) ↦
              bind-Agrees m (shown op) _ _ w (ok none, (op w).1) _ (rw (serves w, failed) refl)
                (shown-eq op w _ failed) (refl, tt)
          | inr (CoreError.validation msg, failed) ↦ failed-Agrees w _ failed refl
          | inr (CoreError.config msg, failed) ↦ failed-Agrees w _ failed refl
          | inr (CoreError.provider msg source, failed) ↦ failed-Agrees w _ failed refl
        ]
