-- ===== src/Prelude/Exec.antt =====
-- Operations on a shared state that may fail: what was written before an error stays written.
use mathlib.Core.Path.{◌≡◌, refl, ap}
use memoria_mcp.Prelude.Results.{Result, ok, err}

-- An operation of an object with state `S`, with errors in `E`.
abbrev pub Exec : Type 0 → Type 0 → Type 0 → Type 0
Exec E S A = S → Result E A × S

module _ {E S A : Type 0} where
  abbrev pub pure : A → Exec E S A
  pure a s = (ok a, s)

  abbrev pub throw : E → Exec E S A
  throw e s = (err e, s)

  abbrev pub lift : Result E A → Exec E S A
  lift r s = (r, s)

  abbrev pub gets : (S → A) → Exec E S A
  gets f s = (ok (f s), s)

  -- A read that may fail and changes nothing.
  abbrev pub reads : (S → Result E A) → Exec E S A
  reads f s = (f s, s)

abbrev pub modify : {E S : Type 0} → (S → S) → Exec E S (Unit {0})
modify f s = (ok tt, f s)

module _ {E S A B : Type 0} where
  abbrev pub continue : Result E A → (A → Exec E S B) → Exec E S B
  continue (ok a) f s = f a s
  continue (err e) f s = (err e, s)

  infixl 5 ◌>>=◌ ◌>>◌
  abbrev pub ◌>>=◌ : Exec E S A → (A → Exec E S B) → Exec E S B
  ◌>>=◌ m f s = let (r, s') = m s in continue r f s'

  abbrev pub ◌>>◌ : Exec E S A → Exec E S B → Exec E S B
  m >> k = m >>= λ _. k

module _ {E S A : Type 0} where
  -- A run is its result and the state after it.
  pub run_lem : (m : Exec E S A) (s : S) {r : Result E A} → (m s).0 ≡ r → m s ≡ (r, (m s).1)
  run_lem m s e = λ i. (e i, (m s).1)

module _ {E S A B : Type 0} where
  continue-eq-ok :
      (r : Result E A) (f : A → Exec E S B) (s : S) {b : B} {s' : S}
      → continue r f s ≡ (ok b, s')
      → (a : A) × (r ≡ ok a) × (f a s ≡ (ok b, s'))
  continue-eq-ok (ok a) f s h = (a, refl, h)
  continue-eq-ok (err e) f s {b} h = absurd (cc (ap (λ (t : Result E B × S). t.0) h))

  -- Inversion of a step that did not return an error.
  pub >>=-eq-ok :
      (m : Exec E S A) (f : A → Exec E S B) (s : S) {b : B} {s' : S}
      → (m >>= f) s ≡ (ok b, s')
      → (a : A) × ((m s).0 ≡ ok a) × (f a (m s).1 ≡ (ok b, s'))
  >>=-eq-ok m f s h = continue-eq-ok (m s).0 f (m s).1 h
