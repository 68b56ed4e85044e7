-- ===== src/Tests/Parts.antt =====
-- The rerankers, the local providers, the rate limiter and the request log on concrete inputs.
use memoria_mcp.Prelude.{
  ℕ, if◌then◌else◌, ◌^◌, ◌≡◌, ◌≤◌, ◌<◌, ◌↔◌, refl, String, true, none, some, [], ◌∷◌, All, length,
  ok, err, List, Option, ◌≢◌, arith, ◌==◌,
}
use memoria_mcp.Map
use memoria_mcp.Reranker.{Reorders}
use memoria_mcp.Llm.{Complete, timeout}
use memoria_mcp.Store.{SearchResult}
use memoria_mcp.Reranker.Overlap
use memoria_mcp.Reranker.Scoring
use memoria_mcp.Reranker.Scoring.{extract_score}
use memoria_mcp.Reranker.Laws.{
  overlap-Reorders, scoring-Reorders, IsScored, extract_score-IsScore, IsScore,
}
use memoria_mcp.Local.Embedding.{hashes, exact, hashes-exact}
use memoria_mcp.Local.Config.{MemoryConfig, validate, validate_lem, IsNamed, IsTemperature}
use memoria_mcp.Local.Url.{
  has_scheme, normalize_ollama_base_url, normalize_ollama_base_url-has_scheme,
}
use memoria_mcp.Server.RequestLog.{RequestLogEntry, append_all, latest, max_entries, append_all_lem}
use memoria_mcp.Server.RateLimiter.{
  check_and_consume, IsBounded, spent, check_and_consume-IsBounded,
}
use memoria_mcp.Tests.Samples.{hundredths, ascii, counts, limiter, limiter-IsBounded}

overlap-Reorders_example : Reorders (Overlap.rerank hundredths ascii (λ s. s))
overlap-Reorders_example = overlap-Reorders hundredths ascii (λ s. s)

-- The model answers no question in time.
abbrev down : Complete
down messages = err timeout

scoring-Reorders_example :
    Reorders (Scoring.rerank hundredths down)
    × ((query : String) (rs : List (SearchResult ℕ))
        → (out : List (SearchResult ℕ)) × (Scoring.rerank hundredths down query rs ≡ ok out)
          × All (IsScored hundredths down query) out)
scoring-Reorders_example = scoring-Reorders hundredths down

-- The answer is above the range.
extract_score-IsScore_example : IsScore hundredths (extract_score hundredths "Score: 3")
extract_score-IsScore_example =
    extract_score-IsScore hundredths "Score: 3" (refl, refl) (refl, refl) (refl, refl)

hashes-exact_example :
    (hashes 8 0 (116 ∷ 101 ∷ 97 ∷ []) ≡ exact 8 0 (116 ∷ 101 ∷ 97 ∷ []))
    × All (λ h. h < 2 ^ 24) (hashes 8 0 (116 ∷ 101 ∷ 97 ∷ []))
    × (length (hashes 8 0 (116 ∷ 101 ∷ 97 ∷ [])) ≡ 8)
hashes-exact_example =
    hashes-exact 8 0 (116 ∷ 101 ∷ 97 ∷ []) (omega arith)
      (omega arith, (omega arith, (omega arith, tt)))

abbrev hot : MemoryConfig ℕ
hot = record {
  llm = record { model = "gemma3"; base_url = none; api_key = none; temperature = some 250 };
  embedding = record {
    model = "all-minilm";
    base_url = none;
    api_key = none;
    dimensions = some 384;
  };
  vector_store = record {
    collection_name = "memories";
    url = none;
    api_key = none;
    dimension = none;
  };
}

validate_lem_example : (validate hundredths ascii.is_whitespace hot ≡ ok tt) ↔ (
    IsNamed hundredths ascii.is_whitespace "gemma3"
    × IsTemperature hundredths ascii.is_whitespace (some 250)
    × IsNamed hundredths ascii.is_whitespace "all-minilm"
    × (◌≢◌ {A = Option ℕ} (some 384) (some 0))
    × IsNamed hundredths ascii.is_whitespace "memories"
    × (◌≢◌ {A = Option ℕ} none (some 0)))
validate_lem_example = validate_lem hundredths ascii.is_whitespace hot

normalize_ollama_base_url-has_scheme_example :
    has_scheme (normalize_ollama_base_url ascii.is_whitespace " ollama.local/ ") ≡ true
normalize_ollama_base_url-has_scheme_example =
    normalize_ollama_base_url-has_scheme ascii.is_whitespace " ollama.local/ "

abbrev entry : RequestLogEntry
entry = record {
  method = "GET";
  path = "/memories";
  status = 200;
  latency_ms = 3;
  auth_kind = "bearer";
  created_at = 1709208000;
}

append_all_lem_example :
    (append_all (entry ∷ entry ∷ []) [] ≡ latest (entry ∷ entry ∷ []))
    × (length (append_all (entry ∷ entry ∷ []) []) ≤ max_entries)
append_all_lem_example = append_all_lem (entry ∷ entry ∷ [])

check_and_consume-IsBounded_example :
    IsBounded counts (λ n. n) (check_and_consume counts (λ n. n) "10.0.0.1" 9 limiter).1
    × ((j : String)
        → Map.get j (check_and_consume counts (λ n. n) "10.0.0.1" 9 limiter).1.buckets ≡ (
            if "10.0.0.1" == j
            then some (spent counts (λ n. n) limiter "10.0.0.1" 9)
            else Map.get j limiter.buckets))
check_and_consume-IsBounded_example =
    check_and_consume-IsBounded counts (λ n. n) limiter "10.0.0.1" 9 (λ a b. ground arith)
      (λ a b h. ground arith) limiter-IsBounded
