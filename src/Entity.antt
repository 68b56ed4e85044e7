-- ===== src/Entity.antt =====
-- core/src/entity.rs: named and quoted spans of a text. The Unicode classes of characters are the
-- standard library's, and a parameter.
use Prim.Native.Char.{Char}
use Prim.Native.String
use memoria_mcp.Prelude.{
  ℕ, zero, suc, String, Bool, true, false, not, ◌&&◌, ◌||◌, Option, none, some, List, [], ◌∷◌, ◌++◌,
  length, ltb, if◌then◌else◌,
}
use memoria_mcp.Prelude.Text.{
  single, is_char, is_empty, join, trim_matches, split_whitespace, all_chars, ends_with,
}

pub record CharClass : Type 0 where
  pub is_whitespace : Char → Bool
  pub is_uppercase : Char → Bool
  pub is_alphabetic : Char → Bool
  pub is_alphanumeric : Char → Bool

pub data EntityType : Type 0 where
  proper quoted : EntityType

abbrev pub Span : Type 0
Span = EntityType × String

-- The text before the next quote (after `acc`), and what follows that quote.
abbrev pub find_quote : ℕ → String → String → Option (String × String)
find_quote q acc String.[] = none
find_quote q acc (String.◌∷◌ c s) =
    let more = find_quote q (String.◌++◌ acc (single c)) s in
    if is_char q c then some (acc, s) else more

module _ (cc : CharClass) where
  abbrev pub trim : String → String
  trim = trim_matches cc.is_whitespace

  unfoldable pub is_capitalized_word : String → Bool
  is_capitalized_word String.[] = false
  is_capitalized_word (String.◌∷◌ first chars) =
      cc.is_uppercase first && all_chars cc.is_alphabetic chars

  -- `if run.len() > 1 { spans.push(..) }`
  unfoldable pub flush : List String → List Span
  flush run = if ltb 1 (length run) then (proper, join " " run) ∷ [] else []

  abbrev pub ends_sentence : String → Bool
  ends_sentence = ends_with (λ c. is_char b'.' c || is_char b'!' c || is_char b'?' c)

  -- The `for` loop over the tokens.
  unfoldable pub proper_from : List String → List String → List Span
  unfolding flush is_capitalized_word
  proper_from run [] = flush run
  proper_from run (token ∷ tokens) =
      let trimmed = trim_matches (λ c. not (cc.is_alphanumeric c)) token in
      let longer = run ++ trimmed ∷ [] in
      let fresh = proper_from [] tokens in
      let joined = proper_from longer tokens in
      if not (is_empty trimmed) && is_capitalized_word trimmed
      then (if ends_sentence token then flush longer ++ fresh else joined)
      else (flush run ++ fresh)

  unfoldable pub extract_proper_spans : String → List Span
  unfolding proper_from
  extract_proper_spans text = proper_from [] (split_whitespace cc.is_whitespace text)

  -- `if quoted.len() > 2 { spans.push(..) }`
  unfoldable pub keep_quoted : String → List Span
  keep_quoted raw =
      let inner = trim raw in if ltb 2 (String.len inner) then (quoted, inner) ∷ [] else []

  -- The `while let` loop: `none` before an opening quote, `some` the text since it.
  unfoldable pub quoted_from : Option String → String → List Span
  unfolding keep_quoted
  quoted_from o String.[] = []
  quoted_from none (String.◌∷◌ c s) =
      let inside = quoted_from (some "") s in
      let outside = quoted_from none s in if is_char b'"' c then inside else outside
  quoted_from (some acc) (String.◌∷◌ c s) =
      let outside = keep_quoted acc ++ quoted_from none s in
      let inside = quoted_from (some (String.◌++◌ acc (single c))) s in
      if is_char b'"' c then outside else inside

  unfoldable pub extract_quoted_spans : String → List Span
  unfolding quoted_from
  extract_quoted_spans text = quoted_from none text

  unfoldable pub is_single_quote_open_boundary : Char → Bool
  is_single_quote_open_boundary c =
      cc.is_whitespace c
      || is_char b'(' c
      || is_char b'[' c
      || is_char b'{' c
      || is_char b',' c
      || is_char b';' c

  unfoldable pub is_single_quote_close_boundary : Char → Bool
  is_single_quote_close_boundary c =
      cc.is_whitespace c
      || is_char b'.' c
      || is_char b',' c
      || is_char b';' c
      || is_char b':' c
      || is_char b'!' c
      || is_char b'?' c
      || is_char b')' c
      || is_char b']' c

  abbrev opens_after : Option Char → Bool
  opens_after none = true
  opens_after (some c) = is_single_quote_open_boundary c

  abbrev closes_before : String → Bool
  closes_before String.[] = true
  closes_before (String.◌∷◌ c s) = is_single_quote_close_boundary c

  -- The `while i < len` loop: `previous` is `chars[i - 1]`, and `skip` counts the characters that
  -- the jump `i = j + 1` has still to pass.
  unfoldable pub single_from : ℕ → Option Char → String → List Span
  unfolding is_single_quote_open_boundary is_single_quote_close_boundary keep_quoted
  single_from skip previous String.[] = []
  single_from (suc skip) previous (String.◌∷◌ c s) = single_from skip (some c) s
  single_from zero previous (String.◌∷◌ c s) =
      let next = single_from zero (some c) s in
      if is_char b'\'' c && opens_after previous
      then elim (find_quote b'\'' "" s) [
        | none ↦ next
        | some (inner, after) ↦
            let jump = keep_quoted inner ++ single_from (suc (String.count inner)) (some c) s in
            if closes_before after then jump else next
      ]
      else next

  unfoldable pub extract_single_quoted_spans : String → List Span
  unfolding single_from
  extract_single_quoted_spans text = single_from zero none text

  unfoldable pub extract_entities : String → List Span
  unfolding extract_proper_spans extract_quoted_spans extract_single_quoted_spans
  extract_entities text =
      extract_proper_spans text ++ (extract_quoted_spans text ++ extract_single_quoted_spans text)
