-- ===== src/Local/Url.antt =====
-- core/src/llm.rs: `normalize_ollama_base_url`.
use Prim.Native.Char.{Char}
use text.Mathlib.Text.{starts_with}
use text.Mathlib.TextPositions.{starts_with-append}
use memoria_mcp.Prelude.{
  String, Bool, true, ◌||◌, ◌≡◌, refl, List, [], ◌∷◌, if◌then◌else◌, format, Bool-cases, inl, inr,
  arith,
}
use memoria_mcp.Prelude.Text.{is_char, is_empty, trim_matches, trim_end, any_char}

abbrev pub default_base_url : String
default_base_url = "http://localhost:11434"

abbrev pub has_scheme : String → Bool
has_scheme url = starts_with url "http://" || starts_with url "https://"

module _ (is_whitespace : Char → Bool) where
  abbrev pub with_scheme : String → String
  with_scheme trimmed =
      if is_empty trimmed
      then default_base_url
      else if has_scheme trimmed
      then trimmed
      else if any_char (is_char 58) trimmed
      then format ("http://" ∷ trimmed ∷ [])
      else format ("http://" ∷ trimmed ∷ ":" ∷ "11434" ∷ [])

  unfoldable pub normalize_ollama_base_url : String → String
  normalize_ollama_base_url raw =
      with_scheme (trim_end (is_char 47) (trim_matches is_whitespace raw))

  http-has_scheme : (rest : List String) → has_scheme (format ("http://" ∷ rest)) ≡ true
  unfolding format
  http-has_scheme rest = ground (arith, starts_with-append "http://" (format rest))

  -- Whatever the setting, the base URL starts with `http://` or `https://`.
  pub normalize_ollama_base_url-has_scheme :
      (raw : String) → has_scheme (normalize_ollama_base_url raw) ≡ true
  unfolding normalize_ollama_base_url
  normalize_ollama_base_url-has_scheme raw =
      with_scheme_lem (trim_end (is_char 47) (trim_matches is_whitespace raw))
    where
      with_scheme_lem : (t : String) → has_scheme (with_scheme t) ≡ true
      with_scheme_lem t = elim (Bool-cases (is_empty t)) [
        | inl blank ↦ rw blank refl
        | inr text ↦ elim (Bool-cases (has_scheme t)) [
          | inl given ↦ rw (text, given) given
          | inr bare ↦ elim (Bool-cases (any_char (is_char 58) t)) [
            | inl port ↦ rw (text, bare, port) (http-has_scheme (t ∷ []))
            | inr no_port ↦ rw (text, bare, no_port) (http-has_scheme (t ∷ ":" ∷ "11434" ∷ []))
          ]
        ]
      ]
