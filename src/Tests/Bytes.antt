-- ===== src/Tests/Bytes.antt =====
-- An encoding of texts as bytes that meets what the service's theorems ask of UTF-8.
use Prim.Native.Char.{code}
use Prim.Native.String.{String}
use text.Mathlib.TextEquality.{Char-path}
use memoria_mcp.Prelude.{ℕ, zero, suc, ◌≡◌, refl, sym, ap, List, [], ◌∷◌, All, arith}
use memoria_mcp.Server.Bytes.{IsByte}

-- A character's code in unary.
abbrev pub unary : ℕ → List ℕ → List ℕ
unary zero rest = 0 ∷ rest
unary (suc n) rest = 1 ∷ unary n rest

abbrev pub bytes_of : String → List ℕ
bytes_of String.[] = []
bytes_of (String.◌∷◌ c s) = unary (code c) (bytes_of s)

head_of : List ℕ → ℕ
head_of [] = 2
head_of (n ∷ ns) = n

tail_of : List ℕ → List ℕ
tail_of [] = []
tail_of (n ∷ ns) = ns

unary_inj : (m n : ℕ) (xs ys : List ℕ) → unary m xs ≡ unary n ys → (m ≡ n) × (xs ≡ ys)
unfolding head_of tail_of
unary_inj zero zero xs ys e = (refl, ap tail_of e)
unary_inj zero (suc n) xs ys e = absurd (omega (arith, ap head_of e))
unary_inj (suc m) zero xs ys e = absurd (omega (arith, ap head_of e))
unary_inj (suc m) (suc n) xs ys e =
    let (same, rest) = unary_inj m n xs ys (ap tail_of e) in (ap suc same, rest)

not_empty : (n : ℕ) (xs : List ℕ) → [] ≡ unary n xs → ⊥
unfolding head_of
not_empty zero xs e = omega (arith, ap head_of e)
not_empty (suc n) xs e = omega (arith, ap head_of e)

pub bytes_of_inj : (s t : String) → bytes_of s ≡ bytes_of t → s ≡ t
bytes_of_inj String.[] String.[] e = refl
bytes_of_inj String.[] (String.◌∷◌ d t) e = absurd (not_empty (code d) (bytes_of t) e)
bytes_of_inj (String.◌∷◌ c s) String.[] e = absurd (not_empty (code c) (bytes_of s) (sym e))
bytes_of_inj (String.◌∷◌ c s) (String.◌∷◌ d t) e =
    let (same, rest) = unary_inj (code c) (code d) (bytes_of s) (bytes_of t) e in
    cc (Char-path c d same, bytes_of_inj s t rest)

unary-IsByte : (n : ℕ) (xs : List ℕ) → All IsByte xs → All IsByte (unary n xs)
unary-IsByte zero xs h = (omega arith, h)
unary-IsByte (suc n) xs h = (omega arith, unary-IsByte n xs h)

pub bytes_of-IsByte : (s : String) → All IsByte (bytes_of s)
bytes_of-IsByte String.[] = tt
bytes_of-IsByte (String.◌∷◌ c s) = unary-IsByte (code c) (bytes_of s) (bytes_of-IsByte s)
