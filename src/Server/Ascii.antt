-- ===== src/Server/Ascii.antt =====
-- The text operations that the service takes from Rust's standard library.
use memoria_mcp.Prelude.{
  ℕ, zero, suc, ◌+◌, ◌*◌, ◌-◌, String, Bool, true, false, ◌&&◌, Option, none, some, leb, eqb,
  if◌then◌else◌,
}
use Prim.Native.Char.{code}

-- `to_ascii_lowercase` on the code of a character.
abbrev pub lower_code : ℕ → ℕ
lower_code n = if leb 65 n && leb n 90 then n + 32 else n

-- `eq_ignore_ascii_case`
unfoldable pub eq_ignore_ascii_case : String → String → Bool
eq_ignore_ascii_case String.[] String.[] = true
eq_ignore_ascii_case String.[] (String.◌∷◌ d t) = false
eq_ignore_ascii_case (String.◌∷◌ c s) String.[] = false
eq_ignore_ascii_case (String.◌∷◌ c s) (String.◌∷◌ d t) =
    eqb (lower_code (code c)) (lower_code (code d)) && eq_ignore_ascii_case s t

-- `strip_prefix`
unfoldable pub strip_prefix : String → String → Option String
strip_prefix String.[] t = some t
strip_prefix (String.◌∷◌ c s) String.[] = none
strip_prefix (String.◌∷◌ c s) (String.◌∷◌ d t) =
    let rest = strip_prefix s t in if eqb (code c) (code d) then rest else none

-- `chars().take(n).collect()`
unfoldable pub take_chars : ℕ → String → String
take_chars zero s = ""
take_chars (suc n) String.[] = ""
take_chars (suc n) (String.◌∷◌ c s) = String.◌∷◌ c (take_chars n s)

-- The digits of a number, refused at the first other character and above the limit.
unfoldable pub parse_digits : ℕ → ℕ → String → Option ℕ
parse_digits limit n String.[] = some n
parse_digits limit n (String.◌∷◌ c s) =
    let next = n * 10 + (code c - 48) in
    let rest = parse_digits limit next s in
    if leb 48 (code c) && (leb (code c) 57 && leb next limit) then rest else none

-- `parse` of an unsigned number up to the limit: one `+` may stand before the digits.
unfoldable pub parse_unsigned : ℕ → String → Option ℕ
unfolding parse_digits
parse_unsigned limit String.[] = none
parse_unsigned limit (String.◌∷◌ c String.[]) = parse_digits limit 0 (String.◌∷◌ c String.[])
parse_unsigned limit (String.◌∷◌ c (String.◌∷◌ d s)) =
    let bare = parse_digits limit 0 (String.◌∷◌ d s) in
    let whole = parse_digits limit 0 (String.◌∷◌ c (String.◌∷◌ d s)) in
    if eqb (code c) 43 then bare else whole
