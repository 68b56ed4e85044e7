-- ===== src/Tests/Admin.antt =====
-- Requests with the admin key, and what they delete.
use memoria_mcp.Prelude.{ℕ, ◌≡◌, ◌↔◌, refl, String, true, none, some, [], ◌∷◌, ok, if◌then◌else◌}
use memoria_mcp.Map
use memoria_mcp.Store.{matches}
use memoria_mcp.Store.InMemory
use memoria_mcp.Store.InMemory.{Records}
use memoria_mcp.Store.InMemory.Meets.{IsValid, Fits, in_memory-Contract}
use memoria_mcp.Memory.{World, store_read, store_write}
use memoria_mcp.Memory.Records.{delete, reset, reset_from, push_history}
use memoria_mcp.Memory.Reset.{is_targeted}
use memoria_mcp.Server.Ascii.{eq_ignore_ascii_case, strip_prefix}
use memoria_mcp.Server.Bytes.{constant_time_eq, bit_or, bit_xor}
use memoria_mcp.Server.Auth.{new}
use memoria_mcp.Server.Http.{
  Headers, find_header, bearer_token, is_authorized, caller_is_admin, current_user_from_headers,
}
use memoria_mcp.Server.Http.Admin.{IsAccepted, IsAdmin, is_authorized_lem, caller_is_admin_lem}
use memoria_mcp.Server.Http.Requests.{Response, reply, message}
use memoria_mcp.Server.Http.Memories.{handle_delete_entity}
use memoria_mcp.Server.Http.Routes.{IsFieldOf, handle_delete_entity_lem}
use memoria_mcp.Server.Http.BadRequest.{delete_entity, handle, bad_request_lem}
use memoria_mcp.Tests.Services.{no_tokens, as_f64, text_of, show}
use memoria_mcp.Tests.Bytes.{bytes_of_inj, bytes_of-IsByte}
use memoria_mcp.Tests.Samples.{
  sample_env, sample_world, two_notes, hundredths, two_notes-IsValid, two_notes-Fits,
}

abbrev with_key : Headers
with_key = ("Authorization", "Bearer 1") ∷ []

is_authorized_lem_example :
    (is_authorized no_tokens [] (some "1") new 1000 with_key ≡ true)
    ↔ IsAccepted no_tokens [] bytes_of_inj bytes_of-IsByte "1" new 1000 with_key
is_authorized_lem_example =
    is_authorized_lem no_tokens [] bytes_of_inj bytes_of-IsByte "1" new 1000 with_key

caller_is_admin_lem_example :
    (caller_is_admin no_tokens [] (some "1") new 1000 with_key ≡ true)
    ↔ IsAdmin no_tokens [] bytes_of_inj bytes_of-IsByte (some "1") new 1000 with_key
caller_is_admin_lem_example =
    caller_is_admin_lem no_tokens [] bytes_of_inj bytes_of-IsByte (some "1") new 1000 with_key

program : Unit {0}
unfolding Map.get Map.remove Map.contains_key Map.insert matches InMemory.get InMemory.list
    InMemory.delete store_read store_write push_history delete reset_from reset find_header
    bearer_token caller_is_admin constant_time_eq eq_ignore_ascii_case strip_prefix
    handle_delete_entity bit_or bit_xor current_user_from_headers
program = tt

abbrev without_alice : World (Records ℕ)
without_alice =
    (handle_delete_entity sample_env as_f64 text_of show (λ s. s) no_tokens [] (some "1") new 1000
      with_key "user" "alice" sample_world).1

deletes_alice :
    handle_delete_entity sample_env as_f64 text_of show
      (λ s. s)
      no_tokens
      []
      (some "1")
      new
      1000
      with_key
      "user"
      "alice"
      sample_world
    ≡ (reply 200 (message "Entity deleted"), without_alice)
unfolding program
deletes_alice = refl

handle_delete_entity_lem_example :
    IsAdmin no_tokens [] bytes_of_inj bytes_of-IsByte (some "1") new 1000 with_key
    × ((field : String) × IsFieldOf "user" field
        × (sample_env.vector_store.get "r1" without_alice.store ≡ (
            if is_targeted sample_env
              (Map.insert field "alice" Map.empty)
              none
              (sample_env.vector_store.get "r1" two_notes)
            then ok none
            else sample_env.vector_store.get "r1" two_notes)))
handle_delete_entity_lem_example =
    handle_delete_entity_lem no_tokens [] bytes_of_inj bytes_of-IsByte sample_env as_f64 text_of
      show (λ s. s) (some "1") new 1000 with_key IsValid Fits (in_memory-Contract hundredths) "user"
      "alice" "r1" sample_world without_alice (message "Entity deleted") two_notes-IsValid
      two_notes-Fits deletes_alice

-- A deletion by an administrator with a kind that the service does not know.
abbrev unknown_kind : Response ℕ × World (Records ℕ)
unknown_kind =
    handle sample_env (λ s. []) (λ s. s) as_f64 text_of show no_tokens [] (some "1") new 1000
      with_key (delete_entity "team" "alice") sample_world

unknown_kind-is_400 : unknown_kind.0.status ≡ 400
unfolding program
unknown_kind-is_400 = refl

bad_request_lem_example : unknown_kind.1 ≡ sample_world
bad_request_lem_example =
    bad_request_lem sample_env (λ s. []) (λ s. s) as_f64 text_of show no_tokens [] (some "1") new
      1000 with_key (delete_entity "team" "alice") sample_world unknown_kind-is_400
