-- ===== src/Mcp/Tools/Scope.antt =====
-- mcp/src/main.rs: `delete_all_memories` over a local engine.
use memoria_mcp.Prelude.{
  ℕ, ◌≡◌, refl, sym, ap, ◌∙◌, String, Bool, true, false, Option, none, some, List, if◌then◌else◌,
  Result, ok, map_err-eq-ok,
}
use memoria_mcp.Prelude.Exec.{Exec, >>=-eq-ok, lift, run_lem}
use memoria_mcp.Map.{insert}
use memoria_mcp.Error.{show_error}
use memoria_mcp.Store.Contract.{Contract}
use memoria_mcp.Memory.{World, Env, has_scope_id}
use memoria_mcp.Memory.Records.{reset}
use memoria_mcp.Memory.Reset.{is_targeted, reset_lem}
use memoria_mcp.Server.Http.Requests.{scope_from_optional}
use memoria_mcp.Snapshot.{Disk, Format, save_store, save_history}
use memoria_mcp.Mcp.Tools.{
  Server, State, Answer, delete_all_memories, local, check_secret, check_call, run_tool, call_local,
  on_world, shown, remote, persist_after_mutation, saved,
}

has_scope_id-from_optional :
    (F : Type 0) (user_id agent_id run_id : Option String)
    → check_call {F = F} (delete_all_memories user_id agent_id run_id) ≡ ok tt
    → has_scope_id (scope_from_optional user_id agent_id run_id) ≡ true
unfolding check_call has_scope_id scope_from_optional insert
has_scope_id-from_optional F none none none e = absurd (cc e)
has_scope_id-from_optional F none none (some r) e = refl
has_scope_id-from_optional F none (some a) none e = refl
has_scope_id-from_optional F none (some a) (some r) e = refl
has_scope_id-from_optional F (some u) none none e = refl
has_scope_id-from_optional F (some u) none (some r) e = refl
has_scope_id-from_optional F (some u) (some a) none e = refl
has_scope_id-from_optional F (some u) (some a) (some r) e = refl

module _ {F G N S D T : Type 0} (files : Disk D T) (serde : Format F T)
    (as_bytes : String → List ℕ) where
  if-world :
      (server : Server F G N S) (b : Bool) (save : World S → Exec String D (Unit {0}))
      (st : State S D)
      → (if b then saved files serde as_bytes server save st else st).world ≡ st.world
  if-world server true save st = refl
  if-world server false save st = refl

  -- What is saved stays in memory.
  world-persist_after_mutation :
      (server : Server F G N S) (st : State S D)
      → (persist_after_mutation files serde as_bytes server st).world ≡ st.world
  unfolding persist_after_mutation
  world-persist_after_mutation server st =
      elim server.backend
        as (λ b.
          (persist_after_mutation files serde as_bytes (record server { backend = b }) st).world
          ≡ st.world) [
            | remote http client ↦ refl
            | local env ↦
                let here = record server { backend = local env } in
                if-world here server.persist_history
                  (save_history env files serde server.history_path) _
                ∙ if-world here server.persist_json_snapshot
                    (save_store env files serde server.store_path) st
          ]

  module _ (env : Env F G S) (Holds Fits : S → Type 0)
      (contract : Contract env.vector_store Holds Fits) where
    -- Over a local engine, a call of `delete_all_memories` that succeeds, whatever its secret and with saving
    -- or without, was given a user, an agent or a run, and it deletes exactly the records of that
    -- scope: every other id reads as before. The store meets its contract.
    pub delete_all_memories_lem :
        (server : Server F G N S) (user_id agent_id run_id secret : Option String) (a : Answer F)
        (st st' : State S D) (j : String)
        → Holds st.world.store
        → Fits st.world.store
        → run_tool files serde as_bytes
            (record server { backend = local env })
            (delete_all_memories user_id agent_id run_id)
            secret
            st
          ≡ (ok a, st')
        → (has_scope_id (scope_from_optional user_id agent_id run_id) ≡ true)
          × (env.vector_store.get j st'.world.store ≡ (
              if is_targeted env
                (scope_from_optional user_id agent_id run_id)
                none
                (env.vector_store.get j st.world.store)
              then ok none
              else env.vector_store.get j st.world.store))
    unfolding run_tool call_local
    delete_all_memories_lem server user_id agent_id run_id secret a st st' j h fits e =
        let call = delete_all_memories user_id agent_id run_id in
        let here = record server { backend = local env } in
        let scope = scope_from_optional user_id agent_id run_id in
        let (u₁, allowed, e₁) =
          >>=-eq-ok (lift (check_secret as_bytes here.mcp_secret secret)) _ st e in
        let (u₂, scoped, e₂) = >>=-eq-ok (lift (check_call call)) _ st e₁ in
        let (outcome, done, e₃) = >>=-eq-ok (on_world (call_local env call)) _ st e₂ in
        let (n, cleared, e₄) =
          >>=-eq-ok (shown (reset env scope none)) _ st.world
            (run_lem (call_local env call) st.world {r = ok outcome} done) in
        let w' = (reset env scope none st.world).1 in
        let gone =
          reset_lem env scope none Holds Fits contract n st.world w' j h fits
            (run_lem (reset env scope none) st.world (map_err-eq-ok show_error _ cleared)) in
        let after : st'.world ≡ w' =
          sym (ap (λ (t : Result _ _ × State S D). t.1.world) e₃)
          ∙ world-persist_after_mutation here (on_world (call_local env call) st).1
          ∙ sym (ap (λ (t : Result _ _ × World S). t.1) e₄) in
        (has_scope_id-from_optional F user_id agent_id run_id scoped, rw after gone)
