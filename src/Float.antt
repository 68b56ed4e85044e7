-- ===== src/Float.antt =====
-- What the program uses of `f32` and `f64`: a carrier with the operations of Rust's standard library
-- as a parameter, and the comparisons that Rust derives from `partial_cmp`.
use Prim.Native.Nat.{Ordering}
use memoria_mcp.Prelude.{ℕ, String, ◌≡◌, Bool, true, false, Option, none, some}

pub record Float (F : Type 0) : Type 0 where
  pub partial_cmp : F → F → Option Ordering
  pub add : F → F → F
  pub sub : F → F → F
  pub mul : F → F → F
  -- `self * a + b`, rounded once
  pub mul_add : F → F → F → F
  pub div : F → F → F
  pub abs : F → F
  pub fract : F → F
  pub midpoint : F → F → F
  pub min : F → F → F
  pub max : F → F → F
  pub infinity : F
  pub neg_infinity : F
  -- `literal m k` is the constant m / 10 ^ k of the source.
  pub literal : ℕ → ℕ → F
  pub parse : String → Option F
  pub to_string : F → String
  -- `{:.0}`
  pub to_integer_string : F → String

module _ {F : Type 0} (fl : Float F) where
  abbrev pub lt : F → F → Bool
  lt a b = elim (fl.partial_cmp a b) [
    | none ↦ false
    | some o ↦ elim o [ Ordering.lt ↦ true | _ ↦ false ]
  ]

  abbrev pub gt : F → F → Bool
  gt a b = elim (fl.partial_cmp a b) [
    | none ↦ false
    | some o ↦ elim o [ Ordering.gt ↦ true | _ ↦ false ]
  ]

  abbrev pub le : F → F → Bool
  le a b = elim (fl.partial_cmp a b) [
    | none ↦ false
    | some o ↦ elim o [ Ordering.gt ↦ false | _ ↦ true ]
  ]

  abbrev pub ge : F → F → Bool
  ge a b = elim (fl.partial_cmp a b) [
    | none ↦ false
    | some o ↦ elim o [ Ordering.lt ↦ false | _ ↦ true ]
  ]

  abbrev pub eq : F → F → Bool
  eq a b = elim (fl.partial_cmp a b) [
    | none ↦ false
    | some o ↦ elim o [ Ordering.eq ↦ true | _ ↦ false ]
  ]

  -- The values that are no NaN: among them `partial_cmp` is a total preorder.
  pub record Ordered (IsNumber : F → Type 0) : Type 0 where
    pub flip_gt : (a b : F) → gt a b ≡ true → gt b a ≡ false
    pub trans_gt :
        (a b c : F)
        → IsNumber a
        → IsNumber b
        → IsNumber c
        → gt a b ≡ false
        → gt b c ≡ false
        → gt a c ≡ false
