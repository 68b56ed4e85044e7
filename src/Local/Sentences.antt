-- ===== src/Local/Sentences.antt =====
-- core/src/llm.rs: `LocalSentenceLlmProvider`, which answers with the sentences of the last message.
use Prim.Native.Char.{Char}
use memoria_mcp.Prelude.{
  String, Bool, not, ◌||◌, Option, none, some, List, [], ◌∷◌, map, retain, if◌then◌else◌, ok, err,
  format,
}
use memoria_mcp.Prelude.Text.{is_char, is_empty, split, join, trim_matches}
use memoria_mcp.Llm.{Complete, Message, empty_messages, lines}

-- `split_once(": ")`, what follows.
unfoldable pub after_colon : String → Option String
after_colon String.[] = none
after_colon (String.◌∷◌ c String.[]) = none
after_colon (String.◌∷◌ c (String.◌∷◌ d s)) =
    let later = after_colon (String.◌∷◌ d s) in
    if is_char 58 c then (if is_char 32 d then some s else later) else later

-- `filter_map`
unfoldable pub contents_after : List String → List String
unfolding after_colon
contents_after [] = []
contents_after (l ∷ ls) =
    let rest = contents_after ls in
    elim (after_colon l) [ some content ↦ content ∷ rest | none ↦ rest ]

abbrev pub last_content : List Message → String
last_content [] = ""
last_content (m ∷ []) = m.content
last_content (m ∷ m' ∷ ms) = last_content (m' ∷ ms)

abbrev pub combined : String → List String → String
combined text [] = text
combined text (l ∷ ls) = join " " (l ∷ ls)

abbrev pub ends_a_sentence : Char → Bool
ends_a_sentence c = is_char 46 c || (is_char 33 c || is_char 63 c)

module _ (is_whitespace : Char → Bool) where
  unfoldable pub sentences : String → List String
  sentences text =
      map (λ s. format (s ∷ "." ∷ []))
        (retain (λ s. not (is_empty s))
          (map (trim_matches is_whitespace) (split ends_a_sentence text)))

  unfoldable pub complete : Complete
  unfolding contents_after sentences
  complete [] = err empty_messages
  complete (m ∷ ms) =
      let text = last_content (m ∷ ms) in
      ok (join "\n" (sentences (combined text (contents_after (lines text)))))
