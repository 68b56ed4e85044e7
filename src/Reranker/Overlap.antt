-- ===== src/Reranker/Overlap.antt =====
-- core/src/reranker.rs: `LocalOverlapReranker`, which mixes the distance with shared words. A set of words
-- is the list of its words, each once.
use memoria_mcp.Prelude.{
  String, Bool, not, Option, none, some, List, [], ◌∷◌, any, retain, length, ◌==◌, if◌then◌else◌,
  ok,
}
use memoria_mcp.Prelude.Text.{split, is_empty}
use memoria_mcp.Prelude.Sort.{sort_by}
use memoria_mcp.Map.{get}
use memoria_mcp.Float.{Float, gt}
use memoria_mcp.Entity.{CharClass}
use memoria_mcp.Store.{SearchResult}
use memoria_mcp.Reranker.{Rerank, with_scores, normalize_distance, lowest, highest}

abbrev pub contains : List String → String → Bool
contains words w = any (λ v. v == w) words

-- `collect::<HashSet<_>>()`
unfoldable pub word_set : List String → List String
word_set [] = []
word_set (w ∷ ws) = let rest = word_set ws in if contains rest w then rest else w ∷ rest

abbrev pub text_of : Option String → String
text_of none = ""
text_of (some s) = s

module _ {F : Type 0} (fl : Float F) (chars : CharClass) (to_lowercase : String → String) where
  unfoldable pub tokenize : String → List String
  unfolding word_set
  tokenize text = word_set (
      retain (λ w. not (is_empty w))
        (split (λ c. not (chars.is_alphanumeric c)) (to_lowercase text)))

  unfoldable pub lexical_distance : List String → String → F
  unfolding tokenize
  lexical_distance [] content = fl.literal 1 0
  lexical_distance (w ∷ ws) content =
      let overlap = length (retain (contains (tokenize content)) (w ∷ ws)) in
      fl.sub (fl.literal 1 0) (fl.div (fl.literal overlap 0) (fl.literal (length (w ∷ ws)) 0))

  -- The new score of a result.
  unfoldable pub overlap_score : String → F → F → SearchResult F → F
  unfolding lexical_distance
  overlap_score query min_score max_score r =
      fl.midpoint (normalize_distance fl r.score min_score max_score)
        (lexical_distance (tokenize query) (text_of (get "content" r.payload)))

  abbrev pub above : SearchResult F → SearchResult F → Bool
  above a b = gt fl a.score b.score

  unfoldable pub rerank : Rerank F
  unfolding overlap_score
  rerank query results =
      let score = overlap_score query (lowest fl results) (highest fl results) in
      ok (sort_by above (with_scores score results))
