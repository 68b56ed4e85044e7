-- ===== src/Map.antt =====
-- `HashMap<String, V>` as a list of entries, which is also the order in which a loop meets them. A
-- new key goes to the end; the theorems about loops over a map do not depend on that order.
pub mod Laws
use memoria_mcp.Prelude.{
  String, Bool, true, false, Option, none, some, List, [], ◌∷◌, if◌then◌else◌, ◌==◌,
}

abbrev pub Map {ℓ} : Type ℓ → Type ℓ
Map V = List (String × V)

module _ {ℓ} {V : Type ℓ} where
  abbrev pub empty : Map V
  empty = []

  unfoldable pub get : String → Map V → Option V
  get k [] = none
  get k ((j, v) ∷ m) = let rest = get k m in if j == k then some v else rest

  unfoldable pub contains_key : String → Map V → Bool
  contains_key k [] = false
  contains_key k ((j, v) ∷ m) = let rest = contains_key k m in if j == k then true else rest

  unfoldable pub insert : String → V → Map V → Map V
  insert k v [] = (k, v) ∷ []
  insert k v ((j, w) ∷ m) = let rest = (j, w) ∷ insert k v m in if j == k then (k, v) ∷ m else rest

  unfoldable pub remove : String → Map V → Map V
  remove k [] = []
  remove k ((j, v) ∷ m) = let rest = remove k m in if j == k then rest else (j, v) ∷ rest

  abbrev pub keys : Map V → List String
  keys [] = []
  keys ((k, v) ∷ m) = k ∷ keys m

  abbrev pub values : Map V → List V
  values [] = []
  values ((k, v) ∷ m) = v ∷ values m
