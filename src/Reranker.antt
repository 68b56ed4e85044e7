-- ===== src/Reranker.antt =====
-- core/src/reranker.rs: the interface of rerankers, and scores brought to one scale.
pub mod Overlap
pub mod Scoring
pub mod Laws
use memoria_mcp.Prelude.{String, List, [], ◌∷◌, All, length, ◌≡◌, Result, ok, map, if◌then◌else◌}
use mathlib.Core.List.{Perm}
use memoria_mcp.Map.{Map}
use memoria_mcp.Float.{Float, gt}
use memoria_mcp.Store.{SearchResult}
use memoria_mcp.Error.{RerankError}

-- `Reranker::rerank`
abbrev pub Rerank : Type 0 → Type 0
Rerank F = String → List (SearchResult F) → Result RerankError (List (SearchResult F))

-- A property of results that looks only at the id and the payload.
abbrev pub Of : {F : Type 0} → (String → Map String → Type 0) → SearchResult F → Type 0
Of P r = P r.id r.payload

-- The results with new scores.
abbrev pub with_scores :
    {F : Type 0} → (SearchResult F → F) → List (SearchResult F) → List (SearchResult F)
with_scores f [] = []
with_scores f (r ∷ rs) = record r { score = f r } ∷ with_scores f rs

-- What a result shows beside its score.
abbrev pub shown : {F : Type 0} → SearchResult F → String × Map String
shown r = (r.id, r.payload)

-- What a reranker may do: order the results anew and score them anew.
pub record Reorders {F : Type 0} (rerank : Rerank F) : Type 1 where
  pub keeps :
      (P : String → Map String → Type 0) (query : String) (rs out : List (SearchResult F))
      → rerank query rs ≡ ok out
      → All (Of P) rs
      → All (Of P) out
  pub same_length :
      (query : String) (rs out : List (SearchResult F))
      → rerank query rs ≡ ok out
      → length out ≡ length rs
  pub same_records :
      (query : String) (rs out : List (SearchResult F))
      → rerank query rs ≡ ok out
      → Perm (map shown out) (map shown rs)

module _ {F : Type 0} (fl : Float F) where
  unfoldable pub normalize_distance : F → F → F → F
  normalize_distance score min_score max_score =
      let range = fl.sub max_score min_score in
      if gt fl range (fl.literal 0 0) then fl.div (fl.sub score min_score) range else fl.literal 0 0

  -- `results.iter().map(|r| r.score).fold(f32::INFINITY, f32::min)`
  fold_min : F → List (SearchResult F) → F
  fold_min acc [] = acc
  fold_min acc (r ∷ rs) = fold_min (fl.min acc r.score) rs

  fold_max : F → List (SearchResult F) → F
  fold_max acc [] = acc
  fold_max acc (r ∷ rs) = fold_max (fl.max acc r.score) rs

  unfoldable pub lowest : List (SearchResult F) → F
  unfolding fold_min
  lowest = fold_min fl.infinity

  unfoldable pub highest : List (SearchResult F) → F
  unfolding fold_max
  highest = fold_max fl.neg_infinity
