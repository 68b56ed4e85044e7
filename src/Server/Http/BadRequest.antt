-- ===== src/Server/Http/BadRequest.antt =====
-- server/src/main.rs: a handler that writes, and answers 400, has changed nothing.
use memoria_mcp.Prelude.{
  ℕ, ◌≡◌, refl, String, Bool, true, false, Option, none, some, List, [], ◌∷◌, format, Result, ok,
  err, Result-cases, inl, inr, arith, if◌then◌else◌,
}
use memoria_mcp.Map.{Map, insert, empty}
use memoria_mcp.Error.{CoreError}
use memoria_mcp.Filter.{FilterExpr}
use memoria_mcp.Filter.Parse.{Value}
use memoria_mcp.Memory.{World, Env, Op}
use memoria_mcp.Memory.Checked.{is_validation}
use memoria_mcp.Memory.Add.{add}
use memoria_mcp.Memory.Records.{update, reset}
use memoria_mcp.Memory.Refused.{add_refused}
use memoria_mcp.Memory.Unchanged.{update_rejected, reset-IsChecked}
use memoria_mcp.Server.Crypto.{Primitives}
use memoria_mcp.Server.Auth.{AuthStore}
use memoria_mcp.Server.Http.{Headers, caller_is_admin}
use memoria_mcp.Server.Http.Requests.{
  CreateMemoryRequest, UpdateMemoryRequest, DeleteAllRequest, Response, Body, reply, failure, ids,
  empty_body, deleted, message, answer, refuse_or, error_response, parsed_body, scope_from_optional,
}
use memoria_mcp.Server.Http.Memories.{
  create_request, handle_create_memory, handle_update_memory, parse_optional_filters,
  handle_delete_all, handle_delete_entity, entity_field,
}

pub data Write (N : Type 0) : Type 0 where
  create : Result String CreateMemoryRequest → Write N
  change : String → Result String UpdateMemoryRequest → Write N
  delete_all : Result String (DeleteAllRequest N) → Write N
  delete_entity : String → String → Write N

-- An error is answered with 400 only where it is a validation error.
is_400 :
    (F : Type 0) (e : CoreError) → (error_response {F = F} e).status ≡ 400 → is_validation e ≡ true
unfolding error_response
is_400 F (CoreError.validation msg) h = refl
is_400 F (CoreError.not_found msg) h = absurd (omega (arith, h))
is_400 F (CoreError.config msg) h = absurd (omega (arith, h))
is_400 F (CoreError.provider msg source) h = absurd (omega (arith, h))

module _ {F : Type 0} where
  answer_400 :
      {S A : Type 0} (call : Op S A) (to_response : A → Response F) (w : World S)
      → ((a : A) → (to_response a).status ≡ 400 → ⊥)
      → ((e : CoreError) → (call w).0 ≡ err e → is_validation e ≡ true → (call w).1 ≡ w)
      → (answer call to_response w).0.status ≡ 400
      → (answer call to_response w).1 ≡ w
  answer_400 call to_response w good quiet bad = elim (Result-cases (call w).0) [
    | inl (a, done) ↦ absurd (good a (rw done at bad))
    | inr (e, failed) ↦ quiet e failed (is_400 F e (rw failed at bad))
  ]

  -- What an administrator asks for changes nothing, so neither does the guarded request.
  guarded_400 :
      {S : Type 0} (b : Bool) (outcome : Response F × World S) (w : World S)
      → (outcome.0.status ≡ 400 → outcome.1 ≡ w)
      → (if b then outcome else (failure 403 "admin access required", w)).0.status ≡ 400
      → (if b then outcome else (failure 403 "admin access required", w)).1 ≡ w
  guarded_400 true outcome w h bad = h bad
  guarded_400 false outcome w h bad = refl

  -- A request that is refused outright changes nothing.
  refuse_or_400 :
      {S A : Type 0} (r : Result (Response F) A) (rest : A → World S → Response F × World S)
      (w : World S)
      → ((a : A) → (rest a w).0.status ≡ 400 → (rest a w).1 ≡ w)
      → (refuse_or r rest w).0.status ≡ 400
      → (refuse_or r rest w).1 ≡ w
  refuse_or_400 (ok a) rest w h bad = h a bad
  refuse_or_400 (err response) rest w h bad = refl

module _ {F G S : Type 0} (env : Env F G S) (as_bytes : String → List ℕ)
    (debug : String → String) where
  create_400 :
      (body : Result String CreateMemoryRequest) (w : World S)
      → (handle_create_memory env as_bytes debug body w).0.status ≡ 400
      → (handle_create_memory env as_bytes debug body w).1 ≡ w
  unfolding handle_create_memory
  create_400 body w = refuse_or_400 (create_request env as_bytes debug body) _ w λ r.
      answer_400 (add env r.0 r.1.0 r.1.1) (λ new_ids. reply 201 (ids new_ids)) w
        (λ a h. omega (arith, h)) (add_refused env r.0 r.1.0 r.1.1 w)

  update_400 :
      (id : String) (body : Result String UpdateMemoryRequest) (w : World S)
      → (handle_update_memory env id body w).0.status ≡ 400
      → (handle_update_memory env id body w).1 ≡ w
  unfolding handle_update_memory
  update_400 id body w = refuse_or_400 (parsed_body body) _ w λ request.
      answer_400 (update env id request.content request.metadata) (λ done. reply 200 empty_body) w
        (λ a h. omega (arith, h)) (update_rejected env id request.content request.metadata w)

  module _ {N : Type 0} (as_f64 : N → Option G) (show_number : N → String) (show : Value N → String)
      (crypto : Primitives) (jwt_secret : List ℕ) (admin_key : Option String) (s : AuthStore)
      (now : ℕ) (headers : Headers) where
    abbrev allowed : Bool
    allowed = caller_is_admin crypto jwt_secret admin_key s now headers

    -- A request that writes, as the router hands it on.
    abbrev pub handle : Write N → World S → Response F × World S
    handle (create body) = handle_create_memory env as_bytes debug body
    handle (change id body) = handle_update_memory env id body
    handle (delete_all body) =
        handle_delete_all env as_f64 show_number show debug crypto jwt_secret admin_key s now
          headers body
    handle (delete_entity entity_type entity_id) =
        handle_delete_entity env as_f64 show_number show debug crypto jwt_secret admin_key s now
          headers entity_type entity_id

    reset_400 :
        (scope : Map String) (filters : Option (FilterExpr G)) (to_body : ℕ → Body F) (w : World S)
        → (answer (reset env scope filters) (λ n. reply 200 (to_body n)) w).0.status ≡ 400
        → (answer (reset env scope filters) (λ n. reply 200 (to_body n)) w).1 ≡ w
    reset_400 scope filters to_body w =
        answer_400 (reset env scope filters) (λ n. reply 200 (to_body n)) w
          (λ a h. omega (arith, h))
          (λ e failed invalid.
            absurd (cc (invalid, (reset-IsChecked env scope filters).not_validation w e failed)))

    delete_all_400 :
        (body : Result String (DeleteAllRequest N)) (w : World S)
        → (handle (delete_all body) w).0.status ≡ 400
        → (handle (delete_all body) w).1 ≡ w
    unfolding handle_delete_all
    delete_all_400 body w = guarded_400 allowed _ w (
        refuse_or_400 (parsed_body body) _ w λ request.
          refuse_or_400 (parse_optional_filters env as_f64 show_number show debug request.filters) _
            w
            λ filters.
              reset_400 (scope_from_optional request.user_id request.agent_id request.run_id)
                filters deleted w)

    delete_entity_400 :
        (entity_type entity_id : String) (w : World S)
        → (handle (delete_entity entity_type entity_id) w).0.status ≡ 400
        → (handle (delete_entity entity_type entity_id) w).1 ≡ w
    unfolding handle_delete_entity
    delete_entity_400 entity_type entity_id w =
        guarded_400 allowed _ w (entity (entity_field entity_type))
      where
        by_field : Option String → Response F × World S
        by_field none = (
          failure 400 (
              format (
                "invalid entity_type '" ∷ entity_type ∷ "': must be one of user, agent, run" ∷ [])),
          w,
        )
        by_field (some field) =
            answer (reset env (insert field entity_id empty) none)
              (λ n. reply 200 (message "Entity deleted")) w

        entity : (field : Option String) → (by_field field).0.status ≡ 400 → (by_field field).1 ≡ w
        entity none bad = refl
        entity (some field) bad =
            reset_400 (insert field entity_id empty) none (λ n. message "Entity deleted") w bad

    -- A request to create or to change a memory, to delete in bulk or to delete an entity, that is answered
    -- with 400, be it for its form, its scope, its sizes, an empty text, a malformed filter or an
    -- unknown kind of entity, has changed neither the store nor the history nor the counter of ids.
    pub bad_request_lem :
        (request : Write N) (w : World S)
        → (handle request w).0.status ≡ 400
        → (handle request w).1 ≡ w
    bad_request_lem (create body) w bad = create_400 body w bad
    bad_request_lem (change id body) w bad = update_400 id body w bad
    bad_request_lem (delete_all body) w bad = delete_all_400 body w bad
    bad_request_lem (delete_entity entity_type entity_id) w bad =
        delete_entity_400 entity_type entity_id w bad
