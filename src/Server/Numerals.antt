-- ===== src/Server/Numerals.antt =====
-- `parse` of the decimal numeral that `format!` writes: what one program puts into a query, the other reads.
use Prim.Native.Char.{code}
use Prim.Native.String.{String}
use Prim.Native.String
use Prim.Native.String.append
use memoria_mcp.Prelude.{
  ℕ, zero, suc, ◌+◌, ◌-◌, ◌*◌, ◌/◌, ◌%◌, ◌≤◌, ◌<◌, ◌≡◌, refl, ap, ◌∙◌, ◌&&◌, Option, none, some,
  leb, ltb, eqb, decimal, Bool-cases, inl, inr, arith,
}
use memoria_mcp.Prelude.Text.{digit, decimal_from}
use memoria_mcp.Server.Ascii.{parse_digits, parse_unsigned}

abbrev and_then : Option ℕ → (ℕ → Option ℕ) → Option ℕ
and_then none k = none
and_then (some n) k = k n

parse_digits-append :
    (limit n : ℕ) (s t : String)
    → parse_digits limit n (String.◌++◌ s t)
      ≡ and_then (parse_digits limit n s) (λ m. parse_digits limit m t)
unfolding parse_digits
parse_digits-append limit n String.[] t = rw (append.nil t) refl
parse_digits-append limit n (String.◌∷◌ c s) t =
    let next = n * 10 + (code c - 48) in
    let rest = parse_digits-append limit next s t in
    elim (Bool-cases (leb 48 (code c) && (leb (code c) 57 && leb next limit))) [
      | inl digits ↦ rw (append.cons c s t, digits) rest
      | inr other ↦ rw (append.cons c s t, other) refl
    ]

parse_digits-digit :
    (limit n d m : ℕ)
    → d < 10
    → n * 10 + d ≡ m
    → m ≤ limit
    → parse_digits limit n (digit d) ≡ some m
unfolding parse_digits digit
parse_digits-digit limit n zero m h e k = ground (arith, e)
parse_digits-digit limit n (suc zero) m h e k = ground (arith, e)
parse_digits-digit limit n (suc (suc zero)) m h e k = ground (arith, e)
parse_digits-digit limit n (suc (suc (suc zero))) m h e k = ground (arith, e)
parse_digits-digit limit n (suc (suc (suc (suc zero)))) m h e k = ground (arith, e)
parse_digits-digit limit n (suc (suc (suc (suc (suc zero))))) m h e k = ground (arith, e)
parse_digits-digit limit n (suc (suc (suc (suc (suc (suc zero)))))) m h e k = ground (arith, e)
parse_digits-digit limit n (suc (suc (suc (suc (suc (suc (suc zero))))))) m h e k =
    ground (arith, e)
parse_digits-digit limit n (suc (suc (suc (suc (suc (suc (suc (suc zero)))))))) m h e k =
    ground (arith, e)
parse_digits-digit limit n (suc (suc (suc (suc (suc (suc (suc (suc (suc zero))))))))) m h e k =
    ground (arith, e)
parse_digits-digit limit n (suc (suc (suc (suc (suc (suc (suc (suc (suc (suc d)))))))))) m h e k =
    absurd (omega arith)

parse_digits-decimal_from :
    (limit f n : ℕ) → n ≤ f → n ≤ limit → parse_digits limit 0 (decimal_from f n) ≡ some n
unfolding decimal_from
parse_digits-decimal_from limit zero n h k =
    parse_digits-digit limit 0 n n (omega arith) (omega arith) k
parse_digits-decimal_from limit (suc f) n h k = elim (Bool-cases (ltb n 10)) [
  | inl small ↦ rw small (parse_digits-digit limit 0 n n (ground arith) (omega arith) k)
  | inr large ↦
      let before = parse_digits-decimal_from limit f (n / 10) (ground arith) (omega arith) in
      let last = parse_digits-digit limit (n / 10) (n % 10) n (omega arith) (omega arith) k in
      rw large (
        parse_digits-append limit 0 (decimal_from f (n / 10)) (digit (n % 10))
        ∙ ap (λ o. and_then o (λ m. parse_digits limit m (digit (n % 10)))) before
        ∙ last)
]

parse_unsigned-eq :
    (limit n : ℕ) (s : String)
    → parse_digits limit 0 s ≡ some (suc n)
    → parse_unsigned limit s ≡ some (suc n)
unfolding parse_unsigned parse_digits
parse_unsigned-eq limit n String.[] e = absurd (cc e)
parse_unsigned-eq limit n (String.◌∷◌ c String.[]) e = e
parse_unsigned-eq limit n (String.◌∷◌ c (String.◌∷◌ d s)) e = elim (Bool-cases (eqb (code c) 43)) [
  | inl plus ↦ ground (arith, e)
  | inr bare ↦ rw bare e
]

-- A number up to the limit, written in decimal digits, reads back as itself.
pub parse_unsigned-decimal : (limit n : ℕ) → n ≤ limit → parse_unsigned limit (decimal n) ≡ some n
unfolding decimal parse_unsigned parse_digits decimal_from digit
parse_unsigned-decimal limit zero h = ground arith
parse_unsigned-decimal limit (suc n) h =
    parse_unsigned-eq limit n (decimal (suc n))
      (parse_digits-decimal_from limit (suc n) (suc n) (omega arith) h)
