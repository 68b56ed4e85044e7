-- ===== src/Reranker/Scoring.antt =====
-- core/src/reranker.rs: `LlmReranker`, which asks a model for a score and reads the first number of the
-- answer.
use Prim.Native.Char.{Char, code}
use memoria_mcp.Prelude.{
  ℕ, zero, suc, String, Bool, true, false, ◌&&◌, Option, none, some, List, [], ◌∷◌, leb,
  if◌then◌else◌, ok, err, format,
}
use memoria_mcp.Prelude.Text.{is_char, is_empty, single}
use memoria_mcp.Prelude.Sort.{sort_by}
use memoria_mcp.Map.{get}
use memoria_mcp.Float.{Float, gt, lt}
use memoria_mcp.Store.{SearchResult}
use memoria_mcp.Llm.{Complete, Message, system, user, new_message}
use memoria_mcp.Reranker.{Rerank, with_scores}
use memoria_mcp.Reranker.Overlap.{text_of}

-- The characters before the n-th, or all of them.
unfoldable pub truncate_chars : String → ℕ → String
truncate_chars s zero = ""
truncate_chars String.[] (suc n) = ""
truncate_chars (String.◌∷◌ c s) (suc n) = String.◌∷◌ c (truncate_chars s n)

abbrev pub is_digit : Char → Bool
is_digit c = leb 48 (code c) && leb (code c) 57

-- The digits that a text begins with, and what follows them.
unfoldable pub take_digits : String → String × String
take_digits String.[] = ("", "")
take_digits (String.◌∷◌ c s) =
    let (ds, rest) = take_digits s in
    if is_digit c then (String.◌∷◌ c ds, rest) else ("", String.◌∷◌ c s)

-- A `-` that a text may begin with, and what follows it.
unfoldable pub take_sign : String → String × String
take_sign String.[] = ("", "")
take_sign (String.◌∷◌ c s) = if is_char 45 c then (single c, s) else ("", String.◌∷◌ c s)

-- The digits behind a `.`.
unfoldable pub decimals : String → String
unfolding take_digits
decimals String.[] = ""
decimals (String.◌∷◌ c s) = if is_char 46 c then (take_digits s).0 else ""

-- The number that a text begins with: its text, and whether it has decimals.
unfoldable pub number_at : String → Option (String × Bool)
unfolding take_sign take_digits decimals
number_at s =
    let (sign, unsigned) = take_sign s in
    let (digits, rest) = take_digits unsigned in
    let fraction = decimals rest in
    if is_empty digits
    then none
    else if is_empty fraction
    then some (format (sign ∷ digits ∷ []), false)
    else some (format (sign ∷ digits ∷ "." ∷ fraction ∷ []), true)

abbrev pub same : Bool → Bool → Bool
same true b = b
same false true = false
same false false = true

abbrev pub system_prompt : String
system_prompt =
    "You are a relevance scoring assistant. Given a query and a document, score how relevant the document is to the query.\n\nScore the relevance on a scale from 0.0 to 1.0, where:\n- 1.0 = Perfectly relevant and directly answers the query\n- 0.8-0.9 = Highly relevant with good information\n- 0.6-0.7 = Moderately relevant with some useful information\n- 0.4-0.5 = Slightly relevant with limited useful information\n- 0.0-0.3 = Not relevant or no useful information\n\nRespond with only a single numerical score between 0.0 and 1.0. Do not include any explanation or additional text."

unfoldable pub build_scoring_messages : String → String → List Message
unfolding truncate_chars
build_scoring_messages query content =
    new_message system system_prompt
    ∷ new_message user (
        format (
          "Query: "
          ∷ truncate_chars query 4000
          ∷ "\n\nDocument: "
          ∷ truncate_chars content 4000
          ∷ []))
    ∷ []

module _ {F : Type 0} (fl : Float F) where
  -- The number that a text begins with, if it is of the kind wanted and parses.
  unfoldable pub wanted_at : Bool → String → Option F
  unfolding number_at
  wanted_at require_decimal s = elim (number_at s) [
    | none ↦ none
    | some n ↦ if same n.1 require_decimal then fl.parse n.0 else none
  ]

  unfoldable pub extract_first_number : Bool → String → Option F
  unfolding wanted_at
  extract_first_number require_decimal String.[] = none
  extract_first_number require_decimal (String.◌∷◌ c s) =
      let later = extract_first_number require_decimal s in
      elim (wanted_at require_decimal (String.◌∷◌ c s)) [ some value ↦ some value | none ↦ later ]

  -- `f32::clamp`
  abbrev pub clamp : F → F → F → F
  clamp value low high = if lt fl value low then low else if gt fl value high then high else value

  abbrev pub first_of : Option F → Option F → Option F
  first_of (some a) o = some a
  first_of none o = o

  unfoldable pub extract_score : String → F
  unfolding extract_first_number
  extract_score response =
      elim (first_of (extract_first_number true response) (extract_first_number false response)) [
        | none ↦ fl.literal 5 1
        | some value ↦ clamp value (fl.literal 0 0) (fl.literal 1 0)
      ]

  module _ (complete : Complete) where
    unfoldable pub score : String → String → F
    unfolding build_scoring_messages
    score query content = elim (complete (build_scoring_messages query content)) [
      | ok completion ↦ extract_score completion
      | err _ ↦ fl.literal 5 1
    ]

    unfoldable pub rerank : Rerank F
    unfolding score
    rerank query results = ok (
        sort_by (λ (a b : SearchResult F). gt fl a.score b.score)
          (with_scores
            (λ r. fl.sub (fl.literal 1 0) (score query (text_of (get "content" r.payload))))
            results))
