-- ===== src/Prelude/Results.antt =====
-- Rust's `Result`, with `?` as `do`.
use mathlib.Core.Path.{◌≡◌, refl}
use mathlib.Core.Bool.{Bool, true, false}
use mathlib.Core.List.{List, [], ◌∷◌}
use mathlib.Core.Logic.{◌⊎◌, ◌≢◌, inl, inr}
use mathlib.Core.Option.{Option, none, some}

pub data Result {ℓ κ} (E : Type κ) (A : Type ℓ) : Type (ℓ ⊔ κ) where
  err : E → Result E A
  ok : A → Result E A

-- `?` on a result, and the rest of the block.
infixl 5 ◌>>=◌
abbrev pub ◌>>=◌ {μ ℓ κ} :
    {E : Type μ} {A : Type ℓ} {B : Type κ} → Result E A → (A → Result E B) → Result E B
err failure >>= rest = err failure
ok value >>= rest = rest value

-- `if !b { return Err(e); }`
abbrev pub ensure {κ} : {E : Type κ} → Bool → E → Result E (Unit {0})
ensure false failure = err failure
ensure true failure = ok tt

-- `Result::map`.
abbrev pub map_ok {ℓ κ μ} :
    {E : Type μ} {A : Type ℓ} {B : Type κ} → (A → B) → Result E A → Result E B
map_ok f (ok a) = ok (f a)
map_ok f (err e) = err e

-- `Result::map_err`.
abbrev pub map_err {ℓ κ μ} :
    {E : Type μ} {E' : Type κ} {A : Type ℓ} → (E → E') → Result E A → Result E' A
map_err f (ok a) = ok a
map_err f (err e) = err (f e)

-- `iter.map(f).collect::<Result<Vec<_>, _>>()`: the first error ends the loop.
pub collect {ℓ κ μ} :
    {E : Type μ} {A : Type ℓ} {B : Type κ} → (A → Result E B) → List A → Result E (List B)
collect f [] = ok []
collect f (x ∷ xs) = do y ← f x; ys ← collect f xs; ok (y ∷ ys)

pub Result-cases {ℓ κ} :
    {E : Type κ} {A : Type ℓ} (r : Result E A) → ((a : A) × (r ≡ ok a)) ⊎ ((e : E) × (r ≡ err e))
Result-cases (ok a) = inl (a, refl)
Result-cases (err e) = inr (e, refl)

-- A block that returned `ok` got past its `?`.
pub >>=-eq-ok {μ ℓ κ} :
    {E : Type μ} {A : Type ℓ} {B : Type κ} (first : Result E A) (rest : A → Result E B) {out : B}
    → (first >>= rest) ≡ ok out
    → (value : A) × (first ≡ ok value) × (rest value ≡ ok out)
>>=-eq-ok (err failure) rest returned = cc
>>=-eq-ok (ok value) rest returned = (value, refl, returned)

pub map_err-eq-ok {ℓ κ μ} :
    {E : Type μ} {E' : Type κ} {A : Type ℓ} (f : E → E') (r : Result E A) {a : A}
    → map_err f r ≡ ok a
    → r ≡ ok a
map_err-eq-ok f (ok b) h = cc
map_err-eq-ok f (err e) h = cc

-- A read finds no value, or does something else.
pub ok_none-cases {ℓ κ} :
    {E : Type κ} {A : Type ℓ} (r : Result E (Option A)) → (r ≡ ok none) ⊎ (r ≢ ok none)
ok_none-cases (ok none) = inl refl
ok_none-cases (ok (some a)) = inr (λ e. cc)
ok_none-cases (err e) = inr (λ h. cc)
