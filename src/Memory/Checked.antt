-- ===== src/Memory/Checked.antt =====
-- core/src/memory.rs: how an operation ends that checks its input before it writes.
use memoria_mcp.Prelude.{
  ◌≡◌, refl, ◌⊎◌, Bool, true, false, if◌then◌else◌, Result, ok, err, map_err, inl, inr,
}
use memoria_mcp.Prelude.Exec.{Exec, continue, pure, lift, throw, ◌>>=◌}
use memoria_mcp.Store.{VectorStoreError, dimension_mismatch}
use memoria_mcp.Error.{CoreError, from_store}
use memoria_mcp.Memory.{World, Op, store_read, store_write}

abbrev pub is_validation : CoreError → Bool
is_validation (CoreError.validation msg) = true
is_validation other = false

from_store-is_validation : (e : VectorStoreError) → is_validation (from_store e) ≡ false
unfolding from_store
from_store-is_validation VectorStoreError.not_found = refl
from_store-is_validation (dimension_mismatch expected actual) = refl
from_store-is_validation (VectorStoreError.backend reason) = refl

module _ {A : Type 0} where
  pub the_error : (d e : CoreError) → ◌≡◌ {A = Result CoreError A} (err d) (err e) → d ≡ e
  the_error d e h = cc

  map_err-is_validation :
      {E : Type 0} (f : E → CoreError) (r : Result E A) (e : CoreError)
      → ((d : E) → is_validation (f d) ≡ false)
      → map_err f r ≡ err e
      → is_validation e ≡ false
  map_err-is_validation f (ok a) e h failed = absurd (cc failed)
  map_err-is_validation f (err d) e h failed = rw (← the_error (f d) e failed) (h d)

module _ {S A : Type 0} where
  -- Whatever error the operation ends with, it is no validation error.
  pub record IsChecked (m : Op S A) : Type 0 where
    pub not_validation : (w : World S) (e : CoreError) → (m w).0 ≡ err e → is_validation e ≡ false

  pub pure-IsChecked : (a : A) → IsChecked (pure a)
  pure-IsChecked a = record { not_validation = λ w e failed. absurd (cc failed) }

  pub throw-IsChecked : (d : CoreError) → is_validation d ≡ false → IsChecked (throw d)
  throw-IsChecked d h = record { not_validation = λ w e failed. rw (← the_error d e failed) h }

  pub store_read-IsChecked : (f : S → Result VectorStoreError A) → IsChecked (store_read f)
  unfolding store_read
  store_read-IsChecked f = record {
    not_validation = λ w e. map_err-is_validation from_store (f w.store) e from_store-is_validation;
  }

  pub store_write-IsChecked : (m : Exec VectorStoreError S A) → IsChecked (store_write m)
  unfolding store_write
  store_write-IsChecked m = record {
    not_validation =
        λ w e. map_err-is_validation from_store (m w.store).0 e from_store-is_validation;
  }

  pub lift-IsChecked :
      {E : Type 0} (f : E → CoreError) (r : Result E A)
      → ((d : E) → is_validation (f d) ≡ false)
      → IsChecked (lift (map_err f r))
  lift-IsChecked f r h = record { not_validation = λ w e. map_err-is_validation f r e h }

  pub elim-IsChecked :
      (b : Bool) (m k : Op S A) → IsChecked m → IsChecked k → IsChecked (if b then m else k)
  elim-IsChecked true m k h h' = h
  elim-IsChecked false m k h h' = h'

module _ {S A B : Type 0} where
  continue-error :
      (r : Result CoreError A) (f : A → Op S B) (w : World S) (e : CoreError)
      → ((d : CoreError) → r ≡ err d → is_validation d ≡ false)
      → ((a : A) → IsChecked (f a))
      → (continue r f w).0 ≡ err e
      → is_validation e ≡ false
  continue-error (ok a) f w e h k failed = (k a).not_validation w e failed
  continue-error (err d) f w e h k failed = h e (cc (the_error d e failed))

  pub >>=-IsChecked :
      (m : Op S A) (f : A → Op S B)
      → IsChecked m
      → ((a : A) → IsChecked (f a))
      → IsChecked (m >>= f)
  >>=-IsChecked m f h k = record {
    not_validation = λ w e failed. continue-error (m w).0 f (m w).1 e (h.not_validation w) k failed;
  }

  -- A run of two steps that fails does so in the first, or in the second.
  pub >>=-eq-err :
      (m : Op S A) (f : A → Op S B) (w : World S) (e : CoreError)
      → ((m >>= f) w).0 ≡ err e
      → ((m w).0 ≡ err e) ⊎ ((a : A) × ((m w).0 ≡ ok a) × ((f a (m w).1).0 ≡ err e))
  >>=-eq-err m f w e failed = go (m w).0 failed
    where
      go :
          (r : Result CoreError A)
          → (continue r f (m w).1).0 ≡ err e
          → (r ≡ err e) ⊎ ((a : A) × (r ≡ ok a) × ((f a (m w).1).0 ≡ err e))
      go (ok a) late = inr (a, refl, late)
      go (err d) early = inl (cc (the_error d e early))

  -- The first step is checked, and so is what follows.
  pub after :
      (m : Op S A) (f : A → Op S B) (w : World S) (e : CoreError)
      → IsChecked m
      → ((m >>= f) w).0 ≡ err e
      → ((a : A) → (f a (m w).1).0 ≡ err e → is_validation e ≡ false)
      → is_validation e ≡ false
  after m f w e h failed rest = elim (>>=-eq-err m f w e failed) [
    | inl early ↦ h.not_validation w e early
    | inr (a, done, late) ↦ rest a late
  ]

  -- A check in front of an operation: where it fails, nothing has been done.
  pub unless_refused :
      (r : Result CoreError A) (f : A → Op S B) (w : World S) (e : CoreError)
      → ((lift r >>= f) w).0 ≡ err e
      → ((a : A) → (f a w).0 ≡ err e → (f a w).1 ≡ w)
      → ((lift r >>= f) w).1 ≡ w
  unless_refused (ok a) f w e failed rest = rest a failed
  unless_refused (err d) f w e failed rest = refl
