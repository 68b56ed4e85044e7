-- ===== src/Reranker/Laws.antt =====
-- core/src/reranker.rs: what both rerankers leave as it was, and the range of a score that is read.
use memoria_mcp.Prelude.{
  String, Bool, true, false, ◌≡◌, refl, ap, List, [], ◌∷◌, map, length, All, Result, ok, err, ◌⊎◌,
  Result-cases, Option-cases, inl, inr, arith, Bool-cases, subst,
}
use mathlib.Core.List.{Perm}
use mathlib.Core.List.Perm
use memoria_mcp.Prelude.Sort.{sort_by, sort_by-perm, All-sort_by, length-sort_by}
use memoria_mcp.Map.{Map, get}
use memoria_mcp.Float.{Float, gt, lt}
use memoria_mcp.Entity.{CharClass}
use memoria_mcp.Store.{SearchResult}
use memoria_mcp.Llm.{Complete, LlmError}
use memoria_mcp.Error.{RerankError}
use memoria_mcp.Reranker.{Of, Reorders, shown, with_scores, lowest, highest}
use memoria_mcp.Reranker.Overlap
use memoria_mcp.Reranker.Scoring
use memoria_mcp.Reranker.Overlap.{text_of}
use memoria_mcp.Reranker.Scoring.{
  build_scoring_messages, clamp, extract_score, first_of, extract_first_number,
}

module _ {F : Type 0} where
  All-with_scores :
      (P : String → Map String → Type 0) (f : SearchResult F → F) (rs : List (SearchResult F))
      → All (Of P) rs
      → All (Of P) (with_scores f rs)
  All-with_scores P f [] h = tt
  All-with_scores P f (r ∷ rs) h = (h.0, All-with_scores P f rs h.1)

  length-with_scores :
      (f : SearchResult F → F) (rs : List (SearchResult F)) → length (with_scores f rs) ≡ length rs
  length-with_scores f [] = refl
  length-with_scores f (r ∷ rs) = omega (arith, length-with_scores f rs)

  shown-with_scores :
      (f : SearchResult F → F) (rs : List (SearchResult F))
      → map shown (with_scores f rs) ≡ map shown rs
  shown-with_scores f [] = refl
  shown-with_scores f (r ∷ rs) = ap (◌∷◌ (r.id, r.payload)) (shown-with_scores f rs)

  -- Any new scores, and a stable sort by them.
  sorts-Reorders :
      (f : String → List (SearchResult F) → SearchResult F → F)
      (after : SearchResult F → SearchResult F → Bool)
      → Reorders (λ query rs. ok (sort_by after (with_scores (f query rs) rs)))
  sorts-Reorders f after = record {
    keeps = λ P query rs out e h. subst (All (Of P)) {y = out} (cc) (
        All-sort_by after (Of P) (with_scores (f query rs) rs)
          (All-with_scores P (f query rs) rs h));
    same_length = λ query rs out e. omega (
      arith,
      ap length (the_list (sort_by after (with_scores (f query rs) rs)) out e),
      length-sort_by after (with_scores (f query rs) rs),
      length-with_scores (f query rs) rs,
    );
    same_records = λ query rs out e.
        subst (λ l. Perm (map shown l) (map shown rs)) {y = out}
          (the_list (sort_by after (with_scores (f query rs) rs)) out e)
          (subst (Perm _) (shown-with_scores (f query rs) rs)
            (Perm.map shown (sort_by-perm after (with_scores (f query rs) rs))));
  }
    where
      the_list :
          (a b : List (SearchResult F))
          → ◌≡◌ {A = Result RerankError (List (SearchResult F))} (ok a) (ok b)
          → a ≡ b
      the_list a b e = cc

module _ {F : Type 0} (fl : Float F) where
  -- The local reranker returns the results that it was given, each once and with its id and payload,
  -- whatever the query: it changes their scores and their order alone.
  pub overlap-Reorders :
      (chars : CharClass) (to_lowercase : String → String)
      → Reorders (Overlap.rerank fl chars to_lowercase)
  unfolding Overlap.rerank
  overlap-Reorders chars to_lowercase =
      sorts-Reorders
        (λ query rs.
          Overlap.overlap_score fl chars to_lowercase query (lowest fl rs) (highest fl rs))
        (λ a b. gt fl a.score b.score)

  module _ (complete : Complete) where
    -- The score of a result is one less the number read off the answer for its content, and one less 0.5 where the
    -- model fails.
    abbrev pub IsScored : String → SearchResult F → Type 0
    IsScored query r =
        let asked = complete (build_scoring_messages query (text_of (get "content" r.payload))) in
        ((answer : String) × (asked ≡ ok answer)
          × (r.score ≡ fl.sub (fl.literal 1 0) (extract_score fl answer)))
        ⊎ ((e : LlmError) × (asked ≡ err e) × (r.score ≡ fl.sub (fl.literal 1 0) (fl.literal 5 1)))

    new_score : String → SearchResult F → F
    new_score query r =
        fl.sub (fl.literal 1 0)
          (Scoring.score fl complete query (text_of (get "content" r.payload)))

    with_scores-IsScored :
        (query : String) (rs : List (SearchResult F))
        → All (IsScored query) (with_scores (new_score query) rs)
    unfolding new_score Scoring.score
    with_scores-IsScored query [] = tt
    with_scores-IsScored query (r ∷ rs) =
        let asked = complete (build_scoring_messages query (text_of (get "content" r.payload))) in
        (
          elim (Result-cases asked) [
            | inl (answer, answered) ↦
                inl (answer, answered, rw (new_score, Scoring.score, answered) refl)
            | inr (e, failed) ↦ inr (e, failed, rw (new_score, Scoring.score, failed) refl)
          ],
          with_scores-IsScored query rs,
        )

    -- The reranker that asks a model answers any query, an error of the model included: it returns the results
    -- that it was given, each once and with its id and payload, and the score of each is one less the
    -- number read off the model's answer for its content, or one less 0.5 where the model fails.
    pub scoring-Reorders :
        Reorders (Scoring.rerank fl complete)
        × ((query : String) (rs : List (SearchResult F))
            → (out : List (SearchResult F)) × (Scoring.rerank fl complete query rs ≡ ok out)
              × All (IsScored query) out)
    unfolding Scoring.rerank new_score
    scoring-Reorders =
        let after = λ (a b : SearchResult F). gt fl a.score b.score in
        (
          sorts-Reorders (λ query rs. new_score query) after,
          λ query rs. (
            sort_by after (with_scores (new_score query) rs),
            refl,
            All-sort_by after (IsScored query) (with_scores (new_score query) rs)
                (with_scores-IsScored query rs),
          ),
        )

  -- The score is not below 0 and not above 1.
  abbrev pub IsScore : F → Type 0
  IsScore x = (lt fl x (fl.literal 0 0) ≡ false) × (gt fl x (fl.literal 1 0) ≡ false)

  -- The score read off an answer lies between 0 and 1, whatever text the model wrote. The constants 0,
  -- 0.5 and 1 must compare as they should.
  pub extract_score-IsScore :
      (response : String)
      → IsScore (fl.literal 0 0)
      → IsScore (fl.literal 5 1)
      → IsScore (fl.literal 1 0)
      → IsScore (extract_score fl response)
  unfolding extract_score
  extract_score-IsScore response zero half one =
      elim (Option-cases (
        first_of fl (extract_first_number fl true response)
          (extract_first_number fl false response))) [
            | inl unread ↦ rw (unread, extract_score) half
            | inr (value, read) ↦ rw (read, extract_score) (clamp_lem value)
          ]
    where
      clamp_lem : (value : F) → IsScore (clamp fl value (fl.literal 0 0) (fl.literal 1 0))
      clamp_lem value = elim (Bool-cases (lt fl value (fl.literal 0 0))) [
        | inl below ↦ rw below zero
        | inr not_below ↦ elim (Bool-cases (gt fl value (fl.literal 1 0))) [
          | inl above ↦ rw (not_below, above) one
          | inr not_above ↦ rw (not_below, not_above) (not_below, not_above)
        ]
      ]
