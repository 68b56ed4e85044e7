-- ===== src/Prelude/Sort.antt =====
-- Rust's stable `sort_by`, for a comparison of which only "greater" matters.
use Prim.Native.Nat.{suc}
use native.Mathlib.Omega.{arith}
use mathlib.Core.Path.{◌≡◌, refl}
use mathlib.Core.Bool.{Bool, true, false}
use mathlib.Core.List.{List, [], ◌∷◌, Perm}
use mathlib.Core.List.Perm
use mathlib.Core.Logic.{inl, inr}
use memoria_mcp.Prelude.Tests.{if◌then◌else◌, Bool-cases}
use memoria_mcp.Prelude.Lists.{All, length}

module _ {ℓ} {A : Type ℓ} (gt : A → A → Bool) where
  insert : A → List A → List A
  insert x [] = x ∷ []
  insert x (y ∷ ys) = let rest = y ∷ insert x ys in if gt x y then rest else x ∷ y ∷ ys

  -- Elements that compare equal keep their order.
  unfoldable pub sort_by : List A → List A
  unfolding insert
  sort_by [] = []
  sort_by (x ∷ xs) = insert x (sort_by xs)

  -- No element is greater than a later one.
  abbrev pub IsSorted : List A → Type 0
  IsSorted [] = Unit
  IsSorted (x ∷ xs) = All (λ y. gt x y ≡ false) xs × IsSorted xs

  insert-perm : (x : A) (ys : List A) → Perm (insert x ys) (x ∷ ys)
  unfolding insert
  insert-perm x [] = Perm.refl (x ∷ [])
  insert-perm x (y ∷ ys) = elim (Bool-cases (gt x y)) [
    | inl after ↦ rw after (Perm.trans (Perm.cons y (insert-perm x ys)) (Perm.swap x y ys))
    | inr before ↦ rw before (Perm.refl (x ∷ y ∷ ys))
  ]

  -- Sorting neither adds, drops nor repeats an element.
  pub sort_by-perm : (xs : List A) → Perm (sort_by xs) xs
  unfolding sort_by
  sort_by-perm [] = Perm.refl []
  sort_by-perm (x ∷ xs) = Perm.trans (insert-perm x (sort_by xs)) (Perm.cons x (sort_by-perm xs))

  All-insert {κ} : (P : A → Type κ) (x : A) (ys : List A) → P x → All P ys → All P (insert x ys)
  unfolding insert
  All-insert P x [] h k = (h, k)
  All-insert P x (y ∷ ys) h k = elim (Bool-cases (gt x y)) [
    | inl after ↦ rw after (k.0, All-insert P x ys h k.1)
    | inr before ↦ rw before (h, k)
  ]

  pub All-sort_by {κ} : (P : A → Type κ) (xs : List A) → All P xs → All P (sort_by xs)
  unfolding sort_by
  All-sort_by P [] h = tt
  All-sort_by P (x ∷ xs) h = All-insert P x (sort_by xs) h.0 (All-sort_by P xs h.1)

  length-insert : (x : A) (ys : List A) → length (insert x ys) ≡ suc (length ys)
  unfolding insert
  length-insert x [] = refl
  length-insert x (y ∷ ys) = ground (arith, length-insert x ys)

  pub length-sort_by : (xs : List A) → length (sort_by xs) ≡ length xs
  unfolding sort_by
  length-sort_by [] = refl
  length-sort_by (x ∷ xs) = omega (arith, length-insert x (sort_by xs), length-sort_by xs)

-- Where "not greater" is transitive on the elements that satisfy `P`, and what is greater is not
-- also less, the result is sorted.
module _ {ℓ κ} {A : Type ℓ} (gt : A → A → Bool) (P : A → Type κ)
    (asym : (x y : A) → gt x y ≡ true → gt y x ≡ false)
    (trans : (x y z : A) → P x → P y → P z → gt x y ≡ false → gt y z ≡ false → gt x z ≡ false) where
  -- What is not below `y` is not below an `x` that is not greater than `y`.
  All-not_gt :
      (x y : A) (zs : List A)
      → P x
      → P y
      → gt x y ≡ false
      → All P zs
      → All (λ z. gt y z ≡ false) zs
      → All (λ z. gt x z ≡ false) zs
  All-not_gt x y [] px py h a b = tt
  All-not_gt x y (z ∷ zs) px py h a b =
      (trans x y z px py a.0 h b.0, All-not_gt x y zs px py h a.1 b.1)

  insert-IsSorted :
      (x : A) (ys : List A) → P x → All P ys → IsSorted gt ys → IsSorted gt (insert gt x ys)
  unfolding insert
  insert-IsSorted x [] px pys s = (tt, tt)
  insert-IsSorted x (y ∷ ys) px pys s = elim (Bool-cases (gt x y)) [
    | inl after ↦ rw after (
      All-insert gt (λ z. gt y z ≡ false) x ys (asym x y after) s.0,
      insert-IsSorted x ys px pys.1 s.1,
    )
    | inr before ↦ rw before ((before, All-not_gt x y ys px pys.0 before pys.1 s.0), s)
  ]

  pub sort_by-IsSorted : (xs : List A) → All P xs → IsSorted gt (sort_by gt xs)
  unfolding sort_by
  sort_by-IsSorted [] h = tt
  sort_by-IsSorted (x ∷ xs) h =
      insert-IsSorted x (sort_by gt xs) h.0 (All-sort_by gt P xs h.1) (sort_by-IsSorted xs h.1)
