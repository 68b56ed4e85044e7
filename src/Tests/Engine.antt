-- ===== src/Tests/Engine.antt =====
-- The engine over the in-memory store with two records.
use memoria_mcp.Prelude.{
  inl, ℕ, ◌≡◌, ◌≤◌, refl, subst, String, true, false, Option, none, some, List, [], ◌∷◌, ◌++◌, All,
  ok, err, length, ◌==◌, if◌then◌else◌, format,
}
use memoria_mcp.Prelude.Sort.{sort_by}
use memoria_mcp.Prelude.Text.{split_whitespace, trim_matches}
use memoria_mcp.Entity.{extract_entities}
use memoria_mcp.Map
use memoria_mcp.Map.{Map, contains_key}
use memoria_mcp.Store.{SearchResult, VectorRecord, matches}
use memoria_mcp.Store.InMemory
use memoria_mcp.Store.InMemory.{Records, in_memory}
use memoria_mcp.Store.InMemory.Meets.{IsValid, Fits, in_memory-Contract}
use memoria_mcp.Error.{CoreError}
use memoria_mcp.Memory.{
  World, Env, has_scope_id, entries_of, is_scope_field, store_read, store_write, is_expired,
  is_entity_record, search_candidate_limit,
}
use memoria_mcp.Memory.Search.{search, visible, apply_entity_boost}
use memoria_mcp.Memory.Visible.{IsVisible, search-IsVisible}
use memoria_mcp.Reranker.{Of, Reorders, Rerank, normalize_distance, highest, lowest}
use memoria_mcp.Reranker.Overlap
use memoria_mcp.Reranker.Laws.{overlap-Reorders}
use memoria_mcp.Memory.Records.{
  list, list_ids, survives, delete, reset, reset_from, push_history, extend_payload, update,
  set_content, set_metadata, content_of,
}
use memoria_mcp.Memory.Listing.{IsListed, list_lem}
use memoria_mcp.Memory.Delete.{entries_for, delete_lem, delete_twice}
use memoria_mcp.Memory.Reset.{is_targeted, reset_lem}
use memoria_mcp.Memory.Update.{touches_scope, IsUpdated, update_refused, update_lem}
use memoria_mcp.Tests.Samples.{
  two_notes-IsValid, two_notes-Fits, sample_env, sample_world, two_notes, ascii, note, alice,
  hundredths,
}

program : Unit {0}
unfolding Map.get Map.remove Map.contains_key Map.insert matches InMemory.get InMemory.list
    InMemory.delete InMemory.update InMemory.keyword_search InMemory.search InMemory.scored
    InMemory.score_record InMemory.distance store_read store_write push_history set_content
    set_metadata extend_payload update delete reset_from reset search visible is_expired
    is_entity_record search_candidate_limit
program = tt

-- What a call leaves behind.
abbrev deleted_r1 : World (Records ℕ)
deleted_r1 = (delete sample_env "r1" sample_world).1

abbrev deleted_twice : World (Records ℕ)
deleted_twice = (delete sample_env "r1" deleted_r1).1

abbrev without_alice : World (Records ℕ)
without_alice = (reset sample_env alice none sample_world).1

abbrev refreshed : World (Records ℕ)
refreshed = (update sample_env "r1" (some "tea") (some (("topic", "drinks") ∷ [])) sample_world).1

deletes : delete sample_env "r1" sample_world ≡ (ok tt, deleted_r1)
unfolding program
deletes = refl

deletes_again : delete sample_env "r1" deleted_r1 ≡ (ok tt, deleted_twice)
unfolding program
deletes_again = refl

resets : reset sample_env alice none sample_world ≡ (ok 1, without_alice)
unfolding program
resets = refl

updates :
    update sample_env "r1" (some "tea") (some (("topic", "drinks") ∷ [])) sample_world
    ≡ (ok tt, refreshed)
unfolding program
updates = refl

delete_lem_example :
    (found : Option (VectorRecord ℕ)) × (sample_env.vector_store.get "r1" two_notes ≡ ok found)
    × ((j : String)
        → sample_env.vector_store.get j deleted_r1.store
          ≡ (if "r1" == j then ok none else sample_env.vector_store.get j two_notes))
    × ((j : String)
        → entries_of j deleted_r1.history ≡ (
            if "r1" == j
            then entries_of j sample_world.history
              ++ entries_for sample_env IsValid Fits
                  (in_memory-Contract hundredths)
                  (content_of sample_env found)
            else entries_of j sample_world.history))
    × IsValid deleted_r1.store
delete_lem_example =
    delete_lem sample_env IsValid Fits (in_memory-Contract hundredths) "r1" sample_world deleted_r1
      two_notes-IsValid deletes

delete_twice_example :
    ((j : String)
      → sample_env.vector_store.get j deleted_twice.store
        ≡ sample_env.vector_store.get j deleted_r1.store)
    × ((j : String) → entries_of j deleted_twice.history ≡ entries_of j deleted_r1.history)
delete_twice_example =
    delete_twice sample_env IsValid Fits (in_memory-Contract hundredths) "r1" sample_world
      deleted_r1 deleted_twice two_notes-IsValid deletes deletes_again

reset_lem_example : sample_env.vector_store.get "r1" without_alice.store ≡ (
    if is_targeted sample_env alice none (sample_env.vector_store.get "r1" two_notes)
    then ok none
    else sample_env.vector_store.get "r1" two_notes)
reset_lem_example =
    reset_lem sample_env alice none IsValid Fits (in_memory-Contract hundredths) 1 sample_world
      without_alice "r1" two_notes-IsValid two_notes-Fits resets

missing : sample_env.vector_store.get "r9" two_notes ≡ ok none
unfolding program
missing = refl

-- The scope of a record that is there.
update_refused_example :
    update sample_env "r1" none (some (("user_id", "eve") ∷ [])) sample_world ≡ (
      if touches_scope (some (("user_id", "eve") ∷ []))
      then (
        err (
            CoreError.validation
              "metadata update must not change scope fields (user_id, agent_id, run_id)"),
        sample_world,
      )
      else (
        err (CoreError.not_found (format ("record " ∷ "r1" ∷ " not found" ∷ []))),
        sample_world,
      ))
unfolding program
update_refused_example =
    update_refused sample_env "r1" none (some (("user_id", "eve") ∷ [])) sample_world (inl refl)

update_lem_example :
    (old new : VectorRecord ℕ) × (sample_env.vector_store.get "r1" two_notes ≡ ok (some old))
    × IsUpdated sample_env (some "tea") (some (("topic", "drinks") ∷ [])) old new
    × ((j : String)
        → sample_env.vector_store.get j refreshed.store
          ≡ (if "r1" == j then ok (some new) else sample_env.vector_store.get j two_notes))
    × ((k : String) → is_scope_field k ≡ true → Map.get k new.payload ≡ Map.get k old.payload)
    × (refreshed.history ≡ sample_world.history)
    × IsValid refreshed.store
update_lem_example =
    update_lem sample_env IsValid Fits (in_memory-Contract hundredths) "r1" (some "tea")
      (some (("topic", "drinks") ∷ [])) sample_world refreshed two_notes-IsValid updates

-- The local reranker.
abbrev local : Rerank ℕ
local = Overlap.rerank hundredths ascii (λ s. s)

abbrev reranked_env : Env ℕ ℕ (Records ℕ)
reranked_env = record sample_env { reranker = some local }

the_reranker : (a b : Rerank ℕ) → some a ≡ some b → a ≡ b
the_reranker a b e = cc

reranked-Reorders : (rerank : Rerank ℕ) → reranked_env.reranker ≡ some rerank → Reorders rerank
reranked-Reorders rerank e =
    subst Reorders (the_reranker local rerank e) (overlap-Reorders hundredths ascii (λ s. s))

abbrev found_r1 : List (SearchResult ℕ)
found_r1 =
    record {
      id = "r1";
      score = 50;
      payload = (note "r1" "likes milk").payload;
      score_details = none;
    }
    ∷ []

finds : search reranked_env "tea" 3 alice none false none true false two_notes ≡ ok found_r1
unfolding program has_scope_id apply_entity_boost sort_by extract_entities split_whitespace
    trim_matches Overlap.rerank normalize_distance highest lowest
finds = refl

search-IsVisible_example :
    All (Of (IsVisible reranked_env alice false none two_notes)) found_r1 × (length found_r1 ≤ 3)
search-IsVisible_example =
    search-IsVisible reranked_env IsValid Fits (in_memory-Contract hundredths) reranked-Reorders
      "tea" 3 alice none false none true false two_notes found_r1 two_notes-IsValid finds

abbrev listed : List String
listed = "r1" ∷ []

lists : list sample_env alice 0 5 false none sample_world ≡ (ok listed, sample_world)
unfolding program has_scope_id list list_ids survives
lists = refl

list_lem_example :
    (sample_world ≡ sample_world)
    × (has_scope_id alice ≡ true)
    × (length listed ≤ 5)
    × All (IsListed sample_env alice false none two_notes) listed
list_lem_example =
    list_lem sample_env alice false none IsValid Fits (in_memory-Contract hundredths) 0 5
      sample_world sample_world listed two_notes-IsValid two_notes-Fits lists
