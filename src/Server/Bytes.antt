-- ===== src/Server/Bytes.antt =====
-- server/src/main.rs: `constant_time_eq`, on bytes as numbers below 256.
use memoria_mcp.Prelude.{
  ℕ, zero, suc, ◌+◌, ◌*◌, ◌/◌, ◌%◌, ◌^◌, ◌<◌, Bool, true, false, ◌≡◌, ◌↔◌, List, [], ◌∷◌, length,
  All, eqb, if◌then◌else◌, arith, refl, ap, eqb_iff, Bool-cases, inl, inr,
}

-- `x ^ y` and `x | y` of numbers with `w` bits, bit by bit.
unfoldable pub bit_xor : ℕ → ℕ → ℕ → ℕ
bit_xor zero x y = 0
bit_xor (suc w) x y = (x % 2 + y % 2) % 2 + 2 * bit_xor w (x / 2) (y / 2)

abbrev max_bit : ℕ → ℕ → ℕ
max_bit a b = if eqb (a + b) 0 then 0 else 1

unfoldable pub bit_or : ℕ → ℕ → ℕ → ℕ
bit_or zero x y = 0
bit_or (suc w) x y = max_bit (x % 2) (y % 2) + 2 * bit_or w (x / 2) (y / 2)

-- The loop over the zipped bytes, with the differences found so far.
unfoldable pub diff_from : ℕ → List ℕ → List ℕ → ℕ
diff_from diff [] b = diff
diff_from diff (x ∷ a) [] = diff
diff_from diff (x ∷ a) (y ∷ b) = diff_from (bit_or 8 diff (bit_xor 8 x y)) a b

unfoldable pub constant_time_eq : List ℕ → List ℕ → Bool
unfolding diff_from
constant_time_eq a b = if eqb (length a) (length b) then eqb (diff_from 0 a b) 0 else false

abbrev pub IsByte : ℕ → Type 0
IsByte x = x < 2 ^ 8

bit_xor-eq-zero : (w x y : ℕ) → x < 2 ^ w → y < 2 ^ w → (bit_xor w x y ≡ 0) ↔ (x ≡ y)
unfolding bit_xor
bit_xor-eq-zero zero x y hx hy = ground arith
bit_xor-eq-zero (suc w) x y hx hy =
    ground (arith, bit_xor-eq-zero w (x / 2) (y / 2) (omega arith) (omega arith))

bit_xor-lt : (w x y : ℕ) → bit_xor w x y < 2 ^ w
unfolding bit_xor
bit_xor-lt zero x y = omega arith
bit_xor-lt (suc w) x y = omega (arith, bit_xor-lt w (x / 2) (y / 2))

bit_or-eq-zero : (w x y : ℕ) → x < 2 ^ w → y < 2 ^ w → (bit_or w x y ≡ 0) ↔ ((x ≡ 0) × (y ≡ 0))
unfolding bit_or
bit_or-eq-zero zero x y hx hy = ground arith
bit_or-eq-zero (suc w) x y hx hy =
    ground (arith, bit_or-eq-zero w (x / 2) (y / 2) (omega arith) (omega arith))

bit_or-lt : (w x y : ℕ) → bit_or w x y < 2 ^ w
unfolding bit_or
bit_or-lt zero x y = omega arith
bit_or-lt (suc w) x y = ground (arith, bit_or-lt w (x / 2) (y / 2))

diff_from-eq-zero :
    (diff : ℕ) (a b : List ℕ)
    → diff < 2 ^ 8
    → All IsByte a
    → All IsByte b
    → length a ≡ length b
    → (diff_from diff a b ≡ 0) ↔ ((diff ≡ 0) × (a ≡ b))
unfolding diff_from
diff_from-eq-zero diff [] [] d ha hb h = (λ e. (e, refl), λ e. e.0)
diff_from-eq-zero diff (x ∷ a) (y ∷ b) d ha hb h =
    let next = bit_or 8 diff (bit_xor 8 x y) in
    let rec =
      diff_from-eq-zero next a b (bit_or-lt 8 diff (bit_xor 8 x y)) ha.1 hb.1 (omega (arith, h)) in
    let zero_or = bit_or-eq-zero 8 diff (bit_xor 8 x y) d (bit_xor-lt 8 x y) in
    let zero_xor = bit_xor-eq-zero 8 x y ha.0 hb.0 in
    (
      λ e. let (n, same) = rec.0 e in let (d0, x0) = zero_or.0 n in (d0, cc (zero_xor.0 x0, same)),
      λ e. rec.1 (zero_or.1 (e.0, zero_xor.1 (cc e.1)), cc e.1),
    )
diff_from-eq-zero diff [] (y ∷ b) d ha hb h = absurd (omega (arith, h))
diff_from-eq-zero diff (x ∷ a) [] d ha hb h = absurd (omega (arith, h))

-- The comparison in constant time accepts two byte texts exactly when they are the same: a difference in
-- any byte, or in the length, is seen.
pub constant_time_eq_lem :
    (a b : List ℕ) → All IsByte a → All IsByte b → (constant_time_eq a b ≡ true) ↔ (a ≡ b)
unfolding constant_time_eq
constant_time_eq_lem a b ha hb = elim (Bool-cases (eqb (length a) (length b))) [
  | inl same ↦
      let rec =
        diff_from-eq-zero 0 a b (omega arith) ha hb ((eqb_iff (length a) (length b)).0 same) in
      rw same (
        λ e. (rec.0 ((eqb_iff (diff_from 0 a b) 0).0 e)).1,
        λ e. (eqb_iff (diff_from 0 a b) 0).1 (rec.1 (refl, e)),
      )
  | inr other ↦ rw other (
    λ e. absurd (cc e),
    λ e. absurd (ground (arith, other, ap length e, eqb_iff (length a) (length b))),
  )
]
