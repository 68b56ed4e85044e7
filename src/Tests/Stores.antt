-- ===== src/Tests/Stores.antt =====
-- The in-memory store and the engine's store contract on two records.
use memoria_mcp.Prelude.{length, ℕ, ◌≡◌, ◌≤◌, All, refl, true, some, none, List, [], ◌∷◌, ok}
use memoria_mcp.Prelude.Sort.{sort_by}
use memoria_mcp.Float.{le}
use memoria_mcp.Store.{SearchResult, matches}
use memoria_mcp.Store.Contract.{Contract, IsMatch}
use memoria_mcp.Store.InMemory.{in_memory, search, scored, score_record, distance, distance_from}
use memoria_mcp.Store.InMemory.Meets.{IsValid, Fits, in_memory-Contract, search-within}
use memoria_mcp.Tests.Samples.{hundredths, two_notes, two_notes-IsValid, bob_note}

in_memory-Contract_example : Contract (in_memory hundredths) IsValid Fits
in_memory-Contract_example = in_memory-Contract hundredths

-- What is near the vector of the second note.
abbrev near : List (SearchResult ℕ)
near = record { id = "r2"; score = 0; payload = bob_note.payload; score_details = none } ∷ []

finds : search hundredths (100 ∷ []) 1 [] (some 50) two_notes ≡ ok near
unfolding search scored matches score_record distance distance_from sort_by
finds = refl

search-within_example :
    (length near ≤ 1)
    × All
        (λ r. IsMatch (in_memory hundredths) two_notes [] r × (le hundredths r.score 50 ≡ true))
        near
search-within_example =
    search-within hundredths (100 ∷ []) 1 [] 50 two_notes near two_notes-IsValid finds
