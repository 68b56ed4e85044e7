-- ===== src/Mcp/Toml.antt =====
-- mcp/src/install.rs: the edits of TOML configurations, line by line.
pub mod Edits
pub mod Ranges
use Prim.Native.Char.{Char}
use Prim.Native.String
use text.Mathlib.Text.{starts_with}
use memoria_mcp.Prelude.{
  ℕ, zero, suc, ◌+◌, ◌-◌, String, Bool, true, false, not, ◌&&◌, ◌||◌, Option, none, some, List, [],
  ◌∷◌, ◌++◌, map, any, find, take, drop, length, leb, ltb, eqb, if◌then◌else◌, is_some_and, ◌==◌,
  format,
}
use memoria_mcp.Prelude.Text.{is_char, is_empty, single, join, trim_start, trim_matches, all_chars}
use memoria_mcp.Map.{Map, contains_key}
use memoria_mcp.Llm.{lines}
use memoria_mcp.Server.Ascii.{strip_prefix}
use memoria_mcp.Mcp.Clients.{ServerEntry, Edit, added, updated, removed, unchanged, absent}

abbrev pub toml_table : String
toml_table = "mcp_servers.memoria"

abbrev pub Range : Type 0
Range = ℕ × ℕ

-- `unicode_escape` is `\u{:04X}` of a control character.
module _ (is_control : Char → Bool) (unicode_escape : Char → String) where
  abbrev escaped : Char → String
  escaped c =
      if is_char 34 c
      then "\\\""
      else if is_char 92 c
      then "\\\\"
      else if is_char 10 c
      then "\\n"
      else if is_char 13 c
      then "\\r"
      else if is_char 9 c
      then "\\t"
      else if is_control c
      then unicode_escape c
      else single c

  abbrev escape_all : String → List String
  escape_all String.[] = []
  escape_all (String.◌∷◌ c s) = escaped c ∷ escape_all s

  unfoldable pub toml_string : String → String
  toml_string value = format ("\"" ∷ (escape_all value ++ "\"" ∷ []))

  module _ (is_ascii_alphanumeric : Char → Bool) where
    unfoldable pub toml_key : String → String
    unfolding toml_string
    toml_key key =
        if not (is_empty key)
          && all_chars (λ c. is_ascii_alphanumeric c || (is_char 95 c || is_char 45 c)) key
        then key
        else toml_string key

    abbrev env_lines : Map String → List String
    env_lines env = map (λ kv. format (toml_key kv.0 ∷ " = " ∷ toml_string kv.1 ∷ [])) env

    -- The second table, if there are variables.
    abbrev env_block : List String → List String
    env_block [] = []
    env_block (v ∷ vs) = "" ∷ format ("[" ∷ toml_table ∷ ".env]" ∷ []) ∷ v ∷ vs

    unfoldable pub render_toml_block : ServerEntry → List String → List String
    unfolding toml_key toml_string
    render_toml_block e preserved_env =
        format ("[" ∷ toml_table ∷ "]" ∷ [])
        ∷ format ("command = " ∷ toml_string e.command ∷ [])
        ∷ "args = []"
        ∷ env_block (env_lines e.env ++ preserved_env)

-- What stands before the first character with this code.
unfoldable pub before : ℕ → String → Option String
before code String.[] = none
before code (String.◌∷◌ c s) =
    let rest = before code s in
    if is_char code c then some "" else elim rest [ none ↦ none | some t ↦ some (String.◌∷◌ c t) ]

-- `strip_suffix('"')`
unfoldable pub strip_quote : String → Option String
strip_quote String.[] = none
strip_quote (String.◌∷◌ c s) =
    let rest = strip_quote s in
    if is_empty s
    then (if is_char 34 c then some "" else none)
    else elim rest [ none ↦ none | some t ↦ some (String.◌∷◌ c t) ]

abbrev or_else : {A : Type 0} → Option A → A → A
or_else none d = d
or_else (some a) d = a

abbrev and_then : {A B : Type 0} → Option A → (A → Option B) → Option B
and_then none f = none
and_then (some a) f = f a

abbrev without_spaces : (Char → Bool) → String → String
without_spaces is_whitespace String.[] = ""
without_spaces is_whitespace (String.◌∷◌ c s) =
    let rest = without_spaces is_whitespace s in if is_whitespace c then rest else String.◌∷◌ c rest

unfoldable pub is_memoria_table : String → Bool
unfolding strip_prefix
is_memoria_table name =
    name == toml_table || is_some_and (strip_prefix toml_table name) (λ rest. starts_with rest ".")

module _ (is_whitespace : Char → Bool) where
  unfoldable pub toml_line_key : String → Option String
  unfolding before strip_quote strip_prefix
  toml_line_key line = and_then (before 61 line) λ text.
      let key = trim_matches is_whitespace text in
      some (or_else (and_then (strip_prefix "\"" key) strip_quote) key)

  -- `[[name]]` or `[name]`
  abbrev inner_of : String → Option String
  inner_of trimmed = elim (strip_prefix "[[" trimmed) [
    | some inner ↦ some inner
    | none ↦ strip_prefix "[" trimmed
  ]

  unfoldable pub toml_table_name : String → Option String
  unfolding before strip_prefix
  toml_table_name line =
      and_then (inner_of (trim_start is_whitespace line))
        λ inner. and_then (before 93 inner) λ name. some (without_spaces is_whitespace name)

  unfoldable pub is_blank_or_comment : String → Bool
  is_blank_or_comment line =
      let trimmed = trim_matches is_whitespace line in is_empty trimmed || starts_with trimmed "#"

  abbrev pub is_header : String → Bool
  is_header line = is_some_and (toml_table_name line) is_memoria_table

  abbrev pub ends_table : String → Bool
  ends_table line = is_some_and (toml_table_name line) (λ name. not (is_memoria_table name))

  abbrev is_comment_at : List String → ℕ → Bool
  is_comment_at [] n = false
  is_comment_at (l ∷ ls) zero = is_blank_or_comment l
  is_comment_at (l ∷ ls) (suc n) = is_comment_at ls n

  -- `while end > start + 1 && is_blank_or_comment(lines[end - 1]) { end -= 1; }`
  unfoldable pub trim_range : List String → ℕ → ℕ → ℕ
  trim_range all start zero = 0
  trim_range all start (suc end) =
      let rest = trim_range all start end in
      if ltb (start + 1) (suc end) && is_comment_at all end then rest else suc end

  -- The two loops: outside of a table, or in the one that starts at a line.
  unfoldable pub ranges_from : List String → Option ℕ → ℕ → List String → List Range
  unfolding trim_range
  ranges_from all none index [] = []
  ranges_from all (some start) index [] = (start, trim_range all start index) ∷ []
  ranges_from all none index (l ∷ ls) =
      let inside = ranges_from all (some index) (index + 1) ls in
      let outside = ranges_from all none (index + 1) ls in if is_header l then inside else outside
  ranges_from all (some start) index (l ∷ ls) =
      let inside = ranges_from all (some start) (index + 1) ls in
      let outside = ranges_from all none (index + 1) ls in
      if ends_table l then (start, trim_range all start index) ∷ outside else inside

  unfoldable pub memoria_toml_ranges : List String → List Range
  unfolding ranges_from
  memoria_toml_ranges ls = ranges_from ls none 0 ls

  abbrev is_kept : ServerEntry → String → Bool
  is_kept e line =
      not (is_blank_or_comment line)
      && is_some_and (toml_line_key line) (λ key. not (contains_key key e.env))

  -- The loop over the lines of one range; `in_env` says whether they are in the table of variables.
  unfoldable pub preserved_from : ServerEntry → Bool → List String → List String
  unfolding toml_table_name toml_line_key is_blank_or_comment
  preserved_from e in_env [] = []
  preserved_from e in_env (l ∷ ls) = elim (toml_table_name l) [
    | some name ↦ preserved_from e (name == format (toml_table ∷ ".env" ∷ [])) ls
    | none ↦
        let rest = preserved_from e in_env ls in
        if in_env && is_kept e l then trim_matches is_whitespace l ∷ rest else rest
  ]

  unfoldable pub preserved_toml_env : List String → List Range → ServerEntry → List String
  unfolding preserved_from
  preserved_toml_env ls [] e = []
  preserved_toml_env ls ((start, end) ∷ ranges) e =
      preserved_from e false (take (end - start) (drop start ls)) ++ preserved_toml_env ls ranges e

  abbrev is_blank : String → Bool
  is_blank line = is_empty (trim_matches is_whitespace line)

  -- The lines before those blank ones that the text ends with.
  unfoldable pub trim_lines : List String → List String
  trim_lines [] = []
  trim_lines (l ∷ ls) = elim (trim_lines ls) [
    | [] ↦ if is_blank l then [] else l ∷ []
    | x ∷ xs ↦ l ∷ x ∷ xs
  ]

  unfoldable pub join_toml : List String → String
  unfolding trim_lines
  join_toml ls = elim (trim_lines ls) [ [] ↦ "" | x ∷ xs ↦ format (join "\n" (x ∷ xs) ∷ "\n" ∷ []) ]
