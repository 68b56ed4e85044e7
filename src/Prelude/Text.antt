-- ===== src/Prelude/Text.antt =====
-- Texts by their characters: `format!`, decimal numerals, and Rust's splitting and trimming.
use Prim.Native.Char.{Char, code}
use Prim.Native.Nat.{ℕ, zero, suc, ◌/◌, ◌%◌}
use Prim.Native.String.{String}
use Prim.Native.String
use mathlib.Core.Bool.{Bool, true, false, not, ◌&&◌, ◌||◌}
use mathlib.Core.List.{List, [], ◌∷◌}
use text.Mathlib.Text.{◌==◌}
use memoria_mcp.Prelude.Tests.{if◌then◌else◌, ltb, eqb}
use memoria_mcp.Prelude.Lists.{retain}

-- `format!`: the pieces, one after the other.
unfoldable pub format : List String → String
format [] = ""
format (s ∷ ss) = String.◌++◌ s (format ss)

abbrev pub single : Char → String
single c = String.◌∷◌ c String.[]

-- The character is the one with this code.
abbrev pub is_char : ℕ → Char → Bool
is_char n c = eqb (code c) n

unfoldable pub digit : ℕ → String
digit n =
    if eqb n 0
    then "0"
    else if eqb n 1
    then "1"
    else if eqb n 2
    then "2"
    else if eqb n 3
    then "3"
    else if eqb n 4
    then "4"
    else if eqb n 5
    then "5"
    else if eqb n 6
    then "6"
    else if eqb n 7
    then "7"
    else if eqb n 8
    then "8"
    else "9"

-- The fuel is the number itself, and each round divides it by ten.
unfoldable pub decimal_from : ℕ → ℕ → String
unfolding digit
decimal_from zero n = digit n
decimal_from (suc f) n =
    let more = String.◌++◌ (decimal_from f (n / 10)) (digit (n % 10)) in
    if ltb n 10 then digit n else more

-- `{n}`
unfoldable pub decimal : ℕ → String
unfolding decimal_from
decimal n = decimal_from n n

-- `split(p)`: the pieces between the characters that satisfy `p`, the empty ones too.
unfoldable pub split_from : (Char → Bool) → String → String → List String
split_from p acc String.[] = acc ∷ []
split_from p acc (String.◌∷◌ c s) =
    let after = acc ∷ split_from p "" s in
    let within = split_from p (String.◌++◌ acc (single c)) s in if p c then after else within

unfoldable pub split : (Char → Bool) → String → List String
unfolding split_from
split p s = split_from p "" s

abbrev pub is_empty : String → Bool
is_empty s = s == ""

-- `join(sep)`
unfoldable pub join : String → List String → String
join sep [] = ""
join sep (s ∷ []) = s
join sep (s ∷ s' ∷ ss) = String.◌++◌ s (String.◌++◌ sep (join sep (s' ∷ ss)))

unfoldable pub trim_start : (Char → Bool) → String → String
trim_start p String.[] = ""
trim_start p (String.◌∷◌ c s) = let rest = trim_start p s in if p c then rest else String.◌∷◌ c s

unfoldable pub trim_end : (Char → Bool) → String → String
trim_end p String.[] = ""
trim_end p (String.◌∷◌ c s) =
    let rest = trim_end p s in if is_empty rest && p c then "" else String.◌∷◌ c rest

-- `trim_matches(p)`, and `trim` with `p` the white space.
unfoldable pub trim_matches : (Char → Bool) → String → String
unfolding trim_start trim_end
trim_matches p s = trim_end p (trim_start p s)

-- `split_whitespace`
unfoldable pub split_whitespace : (Char → Bool) → String → List String
unfolding split
split_whitespace p s = retain (λ w. not (is_empty w)) (split p s)

unfoldable pub all_chars : (Char → Bool) → String → Bool
all_chars p String.[] = true
all_chars p (String.◌∷◌ c s) = p c && all_chars p s

-- `ends_with` with a set of characters.
unfoldable pub ends_with : (Char → Bool) → String → Bool
ends_with p String.[] = false
ends_with p (String.◌∷◌ c s) = let rest = ends_with p s in if is_empty s then p c else rest

-- `contains` with a set of characters.
unfoldable pub any_char : (Char → Bool) → String → Bool
any_char p String.[] = false
any_char p (String.◌∷◌ c s) = p c || any_char p s
