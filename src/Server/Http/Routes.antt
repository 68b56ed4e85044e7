-- ===== src/Server/Http/Routes.antt =====
-- server/src/main.rs: the routes for administrators, and what the deletion of an entity deletes.
use memoria_mcp.Prelude.{
  ◌⊎◌, ◌==◌, eq_iff, ℕ, ◌≡◌, inl, inr, ap, String, Option, none, some, List, All, if◌then◌else◌, ok,
  Bool-cases, Option-cases, Result-cases, arith,
}
use memoria_mcp.Map.{insert, empty}
use memoria_mcp.Store.Contract.{Contract}
use memoria_mcp.Error.{CoreError}
use memoria_mcp.Memory.{World, Env, Op}
use memoria_mcp.Memory.Records.{reset}
use memoria_mcp.Memory.Reset.{is_targeted, reset_lem}
use memoria_mcp.Server.Bytes.{IsByte}
use memoria_mcp.Server.Crypto.{Primitives}
use memoria_mcp.Server.Auth.{AuthStore}
use memoria_mcp.Server.Http.{Headers, caller_is_admin}
use memoria_mcp.Filter.Parse.{Value}
use memoria_mcp.Server.Http.Requests.{Response, Body, reply, message, error_response, answer}
use memoria_mcp.Server.Http.Memories.{handle_delete_entity, entity_field}
use memoria_mcp.Server.Http.Admin.{IsAdmin, caller_is_admin_lem}

-- An error is no 200.
error_response-status : (F : Type 0) (e : CoreError) → (error_response {F = F} e).status ≡ 200 → ⊥
unfolding error_response
error_response-status F (CoreError.validation msg) h = omega (arith, h)
error_response-status F (CoreError.not_found msg) h = omega (arith, h)
error_response-status F (CoreError.config msg) h = omega (arith, h)
error_response-status F (CoreError.provider msg source) h = omega (arith, h)

-- An answer of 200 comes of a call that succeeds.
answer-ok_lem :
    {F S A : Type 0} (call : Op S A) (to_response : A → Response F) (w w' : World S) (body : Body F)
    → answer call to_response w ≡ (reply 200 body, w')
    → (a : A) × (call w ≡ (ok a, w'))
answer-ok_lem {F} {S} call to_response w w' body e =
    let moved : (call w).1 ≡ w' = ap (λ (t : Response F × World S). t.1) e in
    elim (Result-cases (call w).0) [
      | inl (a, done) ↦ (a, λ i. (done i, moved i))
      | inr (error, failed) ↦ absurd (
          error_response-status F error
            (rw failed at (ap (λ (t : Response F × World S). t.0.status) e)))
    ]

-- The kinds of entity, with the field of a payload that names one.
abbrev pub IsFieldOf : String → String → Type 0
IsFieldOf entity_type field =
    ((entity_type ≡ "user") × (field ≡ "user_id"))
    ⊎ (((entity_type ≡ "agent") × (field ≡ "agent_id"))
        ⊎ ((entity_type ≡ "run") × (field ≡ "run_id")))

the_field : (a b : String) → some a ≡ some b → b ≡ a
the_field a b e = cc

entity_field-IsFieldOf :
    (entity_type field : String)
    → entity_field entity_type ≡ some field
    → IsFieldOf entity_type field
entity_field-IsFieldOf t field e = elim (Bool-cases (t == "user")) [
  | inl user ↦ inl ((eq_iff t "user").0 user, the_field "user_id" field (rw user at e))
  | inr no_user ↦ elim (Bool-cases (t == "agent")) [
    | inl agent ↦
        inr
          (inl ((eq_iff t "agent").0 agent, the_field "agent_id" field (rw (no_user, agent) at e)))
    | inr no_agent ↦ elim (Bool-cases (t == "run")) [
      | inl run ↦ inr (
          inr ((eq_iff t "run").0 run, the_field "run_id" field (rw (no_user, no_agent, run) at e)))
      | inr no_run ↦ absurd (cc (rw (no_user, no_agent, no_run) at e))
    ]
  ]
]

module _ (crypto : Primitives) (jwt_secret : List ℕ)
    (as_bytes_inj : (s t : String) → crypto.as_bytes s ≡ crypto.as_bytes t → s ≡ t)
    (as_bytes-IsByte : (s : String) → All IsByte (crypto.as_bytes s)) where
  module _ {F G S N : Type 0} (env : Env F G S) (as_f64 : N → Option G) (show_number : N → String)
      (show : Value N → String) (debug : String → String) (admin_key : Option String)
      (s : AuthStore) (now : ℕ) (headers : Headers) where
    module _ (Holds Fits : S → Type 0) (contract : Contract env.vector_store Holds Fits) where
      -- When the deletion of an entity's records answers 200, the caller is an administrator, the kind of entity is
      -- "user", "agent" or "run", and the records whose payload has the id under `user_id`, `agent_id` or
      -- `run_id` respectively are gone, where every other record reads as before. The store
      -- meets its contract, and what it holds fits into one listing.
      pub handle_delete_entity_lem :
          (entity_type entity_id j : String) (w w' : World S) (body : Body F)
          → Holds w.store
          → Fits w.store
          → handle_delete_entity env as_f64 show_number show debug crypto jwt_secret admin_key s now
              headers entity_type entity_id w
            ≡ (reply 200 body, w')
          → IsAdmin crypto jwt_secret as_bytes_inj as_bytes-IsByte admin_key s now headers
            × ((field : String) × IsFieldOf entity_type field
                × (env.vector_store.get j w'.store ≡ (
                    if is_targeted env
                      (insert field entity_id empty)
                      none
                      (env.vector_store.get j w.store)
                    then ok none
                    else env.vector_store.get j w.store)))
      unfolding handle_delete_entity
      handle_delete_entity_lem entity_type entity_id j w w' body h fits e =
          let status_of = λ (t : Response F × World S). t.0.status in
          elim (Bool-cases (caller_is_admin crypto jwt_secret admin_key s now headers)) [
            | inr other ↦ absurd (omega (arith, ap status_of (rw other at e)))
            | inl permitted ↦ elim (Option-cases (entity_field entity_type)) [
              | inl unknown ↦
                  absurd (omega (arith, ap status_of (rw unknown at (rw permitted at e))))
              | inr (field, known) ↦
                  let (n, ran) =
                    answer-ok_lem (reset env (insert field entity_id empty) none)
                      (λ _. reply 200 (message "Entity deleted")) w w' body
                      (rw known at (rw permitted at e)) in
                  (
                    (caller_is_admin_lem crypto jwt_secret as_bytes_inj as_bytes-IsByte admin_key s
                          now headers).0
                        permitted,
                    (
                      field,
                      entity_field-IsFieldOf entity_type field known,
                      reset_lem env (insert field entity_id empty) none Holds Fits contract n w w' j
                          h fits ran,
                    ),
                  )
            ]
          ]
