-- ===== src/Tests/Snapshots.antt =====
-- A restart on the files that were saved.
use memoria_mcp.Prelude.{format, decimal, ◌≡◌, refl, some, [], ◌∷◌, ok}
use memoria_mcp.Map
use memoria_mcp.Map.{Map, contains_key}
use memoria_mcp.Store.InMemory
use memoria_mcp.Store.InMemory.{Records}
use memoria_mcp.Memory.{is_entity_record, store_read}
use memoria_mcp.Memory.Records.{list_ids, survives, get_record}
use memoria_mcp.Server.Auth.{AuthStore, new}
use memoria_mcp.Server.Auth.Snapshot.{save, load, load-save}
use memoria_mcp.Snapshot.{write_atomically, records_of, save_store, save_history, load_store}
use memoria_mcp.Snapshot.RoundTrip.{unless_entity, env, load-save_store}
use memoria_mcp.Tests.Samples.{
  IsNumber, sample_env, sample_world, two_notes, two_notes-IsValid, two_notes-Fits,
}
use memoria_mcp.Tests.Disks.{
  Files, in_map, values, account_values, in_map-IsFaithful, in_map-IsReliable,
}

abbrev empty_disk : Files
empty_disk = record { drawn = 0; contents = [] }

program : Unit {0}
unfolding Map.get Map.insert contains_key InMemory.get InMemory.list save_store save_history save
    write_atomically format decimal records_of list_ids survives get_record store_read
    is_entity_record
program = tt

abbrev saved_store : Files
saved_store = (save_store (env sample_env) in_map values "store.json" sample_world empty_disk).1

save_store-is_ok :
    save_store (env sample_env) in_map values "store.json" sample_world empty_disk
    ≡ (ok tt, saved_store)
unfolding program
save_store-is_ok = refl

load-save_store_example :
    Map.get "r2" (load_store in_map values "store.json" saved_store)
    ≡ unless_entity (Map.get "r2" two_notes)
load-save_store_example =
    load-save_store sample_env sample_world 1 two_notes-IsValid (refl, (refl, tt)) IsNumber in_map
      values in_map-IsReliable "store.json" empty_disk saved_store "r2" two_notes-Fits
      ((tt, tt), ((tt, tt), tt)) save_store-is_ok

abbrev saved_history : Files
saved_history =
    (save_history (env sample_env) in_map values "history.json" sample_world empty_disk).1

save_history-is_ok :
    save_history (env sample_env) in_map values "history.json" sample_world empty_disk
    ≡ (ok tt, saved_history)
unfolding program
save_history-is_ok = refl

-- A store with a revoked token.
abbrev accounts : AuthStore
accounts = record new {
  refresh_tokens = record { jti = "t1"; user_id = "u1"; issued_at = 1; revoked_at = some 2 } ∷ [];
}

abbrev saved_accounts : Files
saved_accounts = (save in_map account_values 7 "auth.json" accounts empty_disk).1

save-is_ok : save in_map account_values 7 "auth.json" accounts empty_disk ≡ (ok tt, saved_accounts)
unfolding program
save-is_ok = refl

load-save_example :
    load in_map account_values "auth.json" saved_accounts
    ≡ record accounts { ticket = 0; readings = 0 }
load-save_example =
    load-save in_map account_values in_map-IsFaithful (λ a. refl) 7 "auth.json" empty_disk
      saved_accounts accounts save-is_ok
