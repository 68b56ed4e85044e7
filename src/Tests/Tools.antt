-- ===== src/Tests/Tools.antt =====
-- Calls of the tools of the MCP server over a local engine.
use memoria_mcp.Prelude.{
  ℕ, ◌≡◌, refl, true, none, some, [], ok, err, is_some_and, if◌then◌else◌, ◌==◌,
}
use memoria_mcp.Map
use memoria_mcp.Map.{Map}
use memoria_mcp.Store.{matches}
use memoria_mcp.Store.InMemory
use memoria_mcp.Store.InMemory.{Records}
use memoria_mcp.Store.InMemory.Meets.{IsValid, Fits, in_memory-Contract}
use memoria_mcp.Memory.{World, has_scope_id, store_read, store_write}
use memoria_mcp.Memory.Records.{delete, reset, reset_from, push_history}
use memoria_mcp.Memory.Reset.{is_targeted}
use memoria_mcp.Server.Http.Requests.{scope_from_optional}
use memoria_mcp.Mcp.Tools.{
  Server, State, local, delete_memory, delete_all_memories, deleted_count, wrong_secret,
  check_secret, check_call, run_tool, call_local, call_remote, persist_after_mutation, respond,
}
use memoria_mcp.Mcp.Tools.Secret.{run_tool-guarded}
use memoria_mcp.Mcp.Tools.Scope.{delete_all_memories_lem}
use memoria_mcp.Mcp.Remote.{Http, RemoteClient}
use memoria_mcp.Mcp.Tools.Agreement.{told, Agrees}
use memoria_mcp.Mcp.Tools.Agreement.Calls.{Serves, call_remote_lem}
use memoria_mcp.Server.Auth.{new}
use memoria_mcp.Server.Http.Memories.{handle_delete_memory}
use memoria_mcp.Tests.Services.{no_tokens, as_f64, text_of, show}
use memoria_mcp.Tests.Bytes.{bytes_of, bytes_of_inj, bytes_of-IsByte}
use memoria_mcp.Tests.Samples.{
  sample_env, sample_world, two_notes, hundredths, two_notes-IsValid, two_notes-Fits,
}
use memoria_mcp.Tests.Disks.{Files, in_map, values}

abbrev server : Server ℕ ℕ ℕ (Records ℕ)
server = record {
  backend = local sample_env;
  mcp_secret = none;
  store_path = "store.json";
  history_path = "history.json";
  persist_json_snapshot = true;
  persist_history = true;
}

abbrev started : State (Records ℕ) Files
started = record { world = sample_world; disk = record { drawn = 0; contents = [] } }

run_tool-guarded_example :
    run_tool in_map values bytes_of
      (record server { mcp_secret = some "1" })
      (delete_memory "r1")
      (some "1")
      started
    ≡ (if is_some_and (some "1") (λ v. v == "1")
        then run_tool in_map values bytes_of
            (record server { mcp_secret = none })
            (delete_memory "r1")
            (some "1")
            started
        else (err wrong_secret, started))
run_tool-guarded_example =
    run_tool-guarded bytes_of bytes_of_inj bytes_of-IsByte in_map values server "1"
      (delete_memory "r1") (some "1") started

abbrev after : State (Records ℕ) Files
after =
    (run_tool in_map values bytes_of server (delete_all_memories (some "alice") none none) none
      started).1

deletes_one :
    run_tool in_map values bytes_of server
      (delete_all_memories (some "alice") none none)
      none
      started
    ≡ (ok (deleted_count 1), after)
unfolding run_tool check_secret check_call call_local respond persist_after_mutation Map.get
    Map.remove Map.contains_key Map.insert matches InMemory.get InMemory.list InMemory.delete
    store_read store_write push_history delete reset_from reset scope_from_optional
deletes_one = refl

delete_all_memories_lem_example :
    (has_scope_id (scope_from_optional (some "alice") none none) ≡ true)
    × (sample_env.vector_store.get "r1" after.world.store ≡ (
        if is_targeted sample_env
          (scope_from_optional (some "alice") none none)
          none
          (sample_env.vector_store.get "r1" two_notes)
        then ok none
        else sample_env.vector_store.get "r1" two_notes))
delete_all_memories_lem_example =
    delete_all_memories_lem in_map values bytes_of sample_env IsValid Fits
      (in_memory-Contract hundredths) server (some "alice") none none none (deleted_count 1) started
      after "r1" two_notes-IsValid two_notes-Fits deletes_one

-- A service that does what the deletion of "r1" asks for, whatever the request.
abbrev deleting : Http ℕ ℕ (World (Records ℕ))
deleting = record {
  send = λ request w.
      (ok (handle_delete_memory sample_env "r1" w).0, (handle_delete_memory sample_env "r1" w).1);
  parse_url = λ s. ok s;
  show_status = λ n. "status";
  show_body = λ b. "body";
  show_parse_error = λ b. "error";
}

abbrev client : RemoteClient
client = record { base_url = "http://127.0.0.1:8420"; api_key = some "1" }

delete_memory-Serves :
    Serves deleting client sample_env bytes_of as_f64 text_of show
      (λ s. s)
      no_tokens
      []
      (some "1")
      new
      1000
      []
      (delete_memory "r1")
unfolding Serves
delete_memory-Serves w = refl

call_remote_lem_example :
    Agrees
      (told (call_remote deleting client (delete_memory "r1") sample_world))
      (told (call_local sample_env (delete_memory "r1") sample_world))
call_remote_lem_example =
    call_remote_lem deleting client sample_env bytes_of as_f64 text_of show (λ s. s) no_tokens []
      (some "1") new 1000 [] (delete_memory "r1") sample_world delete_memory-Serves
