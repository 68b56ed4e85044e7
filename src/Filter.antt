-- ===== src/Filter.antt =====
-- core/src/filter.rs: the filter language over a record's payload, and its evaluation.
pub mod Parse
pub mod Meaning
pub mod Sound
use Prim.Native.Nat.{Ordering}
use Prim.Native.String.{compare}
use text.Mathlib.Text.{find?}
use memoria_mcp.Prelude.{
  ℕ, String, Bool, true, false, not, ◌&&◌, ◌||◌, Option, none, some, List, any, ◌==◌, if◌then◌else◌,
  ◌^◌,
}
use memoria_mcp.Map.{Map, get}
use memoria_mcp.Float.{Float}
use memoria_mcp.Float

pub data FilterValue (F : Type 0) : Type 0 where
  string : String → FilterValue F
  number : F → FilterValue F
  bool : Bool → FilterValue F

pub data FilterOp (F : Type 0) : Type 0 where
  eq ne gt gte lt lte : FilterValue F → FilterOp F
  one_of nin : List (FilterValue F) → FilterOp F
  contains icontains : String → FilterOp F
  wildcard : FilterOp F

-- `Vec<FilterExpr>` is the second type of the block.
mutual
  pub data FilterExpr (F : Type 0) : Type 0 where
    field : String → FilterOp F → FilterExpr F
    conj disj : FilterExprs F → FilterExpr F
    neg : FilterExpr F → FilterExpr F

  pub data FilterExprs (F : Type 0) : Type 0 where
    nil : FilterExprs F
    cons : FilterExpr F → FilterExprs F → FilterExprs F

-- `haystack.contains(needle)`
abbrev pub has_substring : String → String → Bool
has_substring haystack needle = elim (find? haystack needle) [ none ↦ false | some i ↦ true ]

-- `Bool::to_string`
abbrev pub bool_string : Bool → String
bool_string true = "true"
bool_string false = "false"

-- The comparisons of an `Option<Ordering>` with its wanted values.
abbrev pub is_gt : Option Ordering → Bool
is_gt (some Ordering.gt) = true
is_gt _ = false

abbrev pub is_ge : Option Ordering → Bool
is_ge (some Ordering.gt) = true
is_ge (some Ordering.eq) = true
is_ge _ = false

abbrev pub is_lt : Option Ordering → Bool
is_lt (some Ordering.lt) = true
is_lt _ = false

abbrev pub is_le : Option Ordering → Bool
is_le (some Ordering.lt) = true
is_le (some Ordering.eq) = true
is_le _ = false

-- `str::to_lowercase` is the standard library's, over the Unicode tables.
module _ {F : Type 0} (fl : Float F) (to_lowercase : String → String) where
  unfoldable pub format_number : F → String
  format_number n =
      if Float.eq fl (fl.fract n) (fl.literal 0 0)
        && Float.lt fl (fl.abs n) (fl.literal (10 ^ 15) 0)
      then fl.to_integer_string n
      else fl.to_string n

  unfoldable pub display_string : FilterValue F → String
  unfolding format_number
  display_string (string s) = s
  display_string (number n) = format_number n
  display_string (bool b) = bool_string b

  unfoldable pub as_number : FilterValue F → Option F
  as_number (number n) = some n
  as_number (string s) = none
  as_number (bool b) = none

  -- The pair of numbers that the `if let` of the comparisons matches.
  unfoldable pub both_numbers : FilterValue F → String → Option (F × F)
  unfolding as_number
  both_numbers value payload_str = elim (as_number value) [
    | none ↦ none
    | some n ↦ elim (fl.parse payload_str) [ none ↦ none | some p ↦ some (n, p) ]
  ]

  unfoldable pub values_equal : FilterValue F → String → Bool
  values_equal value payload_str = elim (both_numbers value payload_str) [
    | some (n, p) ↦ Float.eq fl n p
    | none ↦ display_string value == payload_str
  ]

  unfoldable pub numeric_order : FilterValue F → String → Option Ordering
  numeric_order value payload_str = elim (both_numbers value payload_str) [
    | some (n, p) ↦ fl.partial_cmp p n
    | none ↦ some (compare payload_str (display_string value))
  ]

  -- The `match op` of `evaluate_op`, at a field that is present.
  unfoldable pub evaluate_present : FilterOp F → String → Bool
  evaluate_present wildcard s = true
  evaluate_present (eq v) s = values_equal v s
  evaluate_present (ne v) s = not (values_equal v s)
  evaluate_present (one_of vs) s = any (λ v. values_equal v s) vs
  evaluate_present (nin vs) s = not (any (λ v. values_equal v s) vs)
  evaluate_present (gt v) s = is_gt (numeric_order v s)
  evaluate_present (gte v) s = is_ge (numeric_order v s)
  evaluate_present (lt v) s = is_lt (numeric_order v s)
  evaluate_present (lte v) s = is_le (numeric_order v s)
  evaluate_present (contains needle) s = has_substring s needle
  evaluate_present (icontains needle) s = has_substring (to_lowercase s) (to_lowercase needle)

  unfoldable pub evaluate_op : FilterOp F → Option String → Bool
  evaluate_op wildcard value = true
  evaluate_op op none = false
  evaluate_op op (some s) = evaluate_present op s

  -- `evaluate_all` and `evaluate_any` are the `all` and `any` over a `Vec<FilterExpr>`.
  unfoldable mutual
    pub evaluate : FilterExpr F → Map String → Bool
    evaluate (field name op) payload = evaluate_op op (get name payload)
    evaluate (conj es) payload = evaluate_all es payload
    evaluate (disj es) payload = evaluate_any es payload
    evaluate (neg e) payload = not (evaluate e payload)

    pub evaluate_all : FilterExprs F → Map String → Bool
    evaluate_all nil payload = true
    evaluate_all (cons e es) payload = evaluate e payload && evaluate_all es payload

    pub evaluate_any : FilterExprs F → Map String → Bool
    evaluate_any nil payload = false
    evaluate_any (cons e es) payload = evaluate e payload || evaluate_any es payload
