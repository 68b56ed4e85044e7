-- ===== src/Map/Laws.antt =====
-- Reading a map after a write, and the keys that a loop over it meets.
use memoria_mcp.Prelude.{
  String, ◌≡◌, refl, true, false, none, some, [], ◌∷◌, arith, any, length, suc, ap, if◌then◌else◌,
  ◌==◌, eq_iff,
}
use memoria_mcp.Map.{Map, get, contains_key, insert, remove, keys}

module _ {ℓ} {V : Type ℓ} where
  pub get-insert :
      (k j : String) (v : V) (m : Map V)
      → get j (insert k v m) ≡ (if k == j then some v else get j m)
  unfolding get insert
  get-insert k j v [] = refl
  get-insert k j v ((i, w) ∷ m) =
      ground (arith, eq_iff k j, eq_iff i k, eq_iff i j, get-insert k j v m)

  pub get-remove :
      (k j : String) (m : Map V) → get j (remove k m) ≡ (if k == j then none else get j m)
  unfolding get remove
  get-remove k j [] = ground arith
  get-remove k j ((i, w) ∷ m) = ground (arith, eq_iff k j, eq_iff i k, eq_iff i j, get-remove k j m)

  pub contains_key-insert :
      (k j : String) (v : V) (m : Map V)
      → contains_key j (insert k v m) ≡ (if k == j then true else contains_key j m)
  unfolding contains_key insert
  contains_key-insert k j v [] = refl
  contains_key-insert k j v ((i, w) ∷ m) =
      ground (arith, eq_iff k j, eq_iff i k, eq_iff i j, contains_key-insert k j v m)

  pub contains_key-remove :
      (k j : String) (m : Map V)
      → contains_key j (remove k m) ≡ (if k == j then false else contains_key j m)
  unfolding contains_key remove
  contains_key-remove k j [] = ground arith
  contains_key-remove k j ((i, w) ∷ m) =
      ground (arith, eq_iff k j, eq_iff i k, eq_iff i j, contains_key-remove k j m)

  -- A key is present exactly when a read of it finds a value.
  pub get-eq-none : (k : String) (m : Map V) → contains_key k m ≡ false → get k m ≡ none
  unfolding get contains_key
  get-eq-none k [] h = refl
  get-eq-none k ((i, w) ∷ m) h = ground (arith, get-eq-none k m)

  pub contains_key_of_get :
      (k : String) (m : Map V) (v : V) → get k m ≡ some v → contains_key k m ≡ true
  unfolding get contains_key
  contains_key_of_get k [] v h = ground arith
  contains_key_of_get k ((i, w) ∷ m) v h = ground (arith, contains_key_of_get k m v)

  pub contains_key_of_none : (k : String) (m : Map V) → get k m ≡ none → contains_key k m ≡ false
  unfolding get contains_key
  contains_key_of_none k [] h = refl
  contains_key_of_none k ((i, w) ∷ m) h = ground (arith, contains_key_of_none k m)

  pub length-keys : (m : Map V) → length (keys m) ≡ length m
  length-keys [] = refl
  length-keys ((i, w) ∷ m) = ap suc (length-keys m)

  -- A loop over the keys meets exactly the keys that are present.
  pub any-keys : (k : String) (m : Map V) → any (λ j. j == k) (keys m) ≡ contains_key k m
  unfolding contains_key
  any-keys k [] = refl
  any-keys k ((i, w) ∷ m) = ground (arith, any-keys k m)

  -- Each key stands once.
  abbrev pub IsDistinct : Map V → Type 0
  IsDistinct [] = Unit
  IsDistinct ((k, v) ∷ m) = (contains_key k m ≡ false) × IsDistinct m

  pub insert-IsDistinct :
      (k : String) (v : V) (m : Map V) → IsDistinct m → IsDistinct (insert k v m)
  unfolding insert contains_key
  insert-IsDistinct k v [] h = (refl, tt)
  insert-IsDistinct k v ((i, w) ∷ m) h =
      ground
        (arith, eq_iff i k, eq_iff k i, contains_key-insert k i v m, insert-IsDistinct k v m h.1)

  pub remove-IsDistinct : (k : String) (m : Map V) → IsDistinct m → IsDistinct (remove k m)
  unfolding remove
  remove-IsDistinct k [] h = tt
  remove-IsDistinct k ((i, w) ∷ m) h =
      ground (arith, contains_key-remove k i m, remove-IsDistinct k m h.1)
