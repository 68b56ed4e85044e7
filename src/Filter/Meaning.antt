-- ===== src/Filter/Meaning.antt =====
-- What a JSON filter says of a payload, read off the JSON with no filter expression in between, and
-- that the parser and the evaluator of core/src/filter.rs agree with it.
use Prim.Native.Nat.{Ordering}
use memoria_mcp.Prelude.{
  String, Bool, true, false, not, ◌&&◌, ◌||◌, Option, none, some, ◌==◌, if◌then◌else◌,
}
use memoria_mcp.Map.{Map, get}
use memoria_mcp.Float.{Float}
use memoria_mcp.Filter.{
  FilterValue, has_substring, values_equal, numeric_order, is_gt, is_ge, is_lt, is_le,
}
use memoria_mcp.Filter.Parse.{
  Value, Values, Fields, null, bool, number, string, array, object, end, item, close, entry,
}

module _ {F N : Type 0} (fl : Float F) (to_lowercase : String → String)
    (as_f64 : N → Option F) where
  -- The filter value that a JSON scalar stands for.
  abbrev pub scalar : Value N → Option (FilterValue F)
  scalar (string s) = some (FilterValue.string s)
  scalar (bool b) = some (FilterValue.bool b)
  scalar (number n) = elim (as_f64 n) [ some x ↦ some (FilterValue.number x) | none ↦ none ]
  scalar null = none
  scalar (array vs) = none
  scalar (object fs) = none

  abbrev pub equals : Value N → String → Bool
  equals v s = elim (scalar v) [ some x ↦ values_equal fl to_lowercase x s | none ↦ false ]

  -- How the payload's text compares with the JSON scalar.
  abbrev pub order : Value N → String → Option Ordering
  order v s = elim (scalar v) [ some x ↦ numeric_order fl to_lowercase x s | none ↦ none ]

  abbrev pub equals_some : Values N → String → Bool
  equals_some end s = false
  equals_some (item v vs) s = equals v s || equals_some vs s

  abbrev pub is_member : Value N → String → Bool
  is_member (array vs) s = equals_some vs s
  is_member _ s = false

  abbrev pub text_of : Value N → String
  text_of (string s) = s
  text_of _ = ""

  -- One operator of a field condition, at a field that is present.
  abbrev pub op_holds : String → Value N → String → Bool
  op_holds name v s =
      if name == "eq"
      then equals v s
      else if name == "ne"
      then not (equals v s)
      else if name == "in"
      then is_member v s
      else if name == "nin"
      then not (is_member v s)
      else if name == "gt"
      then is_gt (order v s)
      else if name == "gte"
      then is_ge (order v s)
      else if name == "lt"
      then is_lt (order v s)
      else if name == "lte"
      then is_le (order v s)
      else if name == "contains"
      then has_substring s (text_of v)
      else if name == "icontains"
      then has_substring (to_lowercase s) (to_lowercase (text_of v))
      else false

  abbrev pub holds_present : String → Value N → Option String → Bool
  holds_present name v none = false
  holds_present name v (some s) = op_holds name v s

  abbrev pub ops_hold : Fields N → Option String → Bool
  ops_hold close o = true
  ops_hold (entry name v ops) o = holds_present name v o && ops_hold ops o

  abbrev pub present_equals : Value N → Option String → Bool
  present_equals v none = false
  present_equals v (some s) = equals v s

  -- The condition of one field.
  abbrev pub condition_holds : Value N → Option String → Bool
  condition_holds (object ops) o = ops_hold ops o
  condition_holds (string s) o = if s == "*" then true else present_equals (string s) o
  condition_holds v o = present_equals v o

  -- `and_holds` and `or_holds` are about the items of an `AND` and of an `OR`.
  abbrev mutual
    pub filter_holds : Value N → Map String → Bool
    filter_holds (object map) p = entries_hold map p
    filter_holds null p = false
    filter_holds (bool b) p = false
    filter_holds (number n) p = false
    filter_holds (string s) p = false
    filter_holds (array vs) p = false

    pub entries_hold : Fields N → Map String → Bool
    entries_hold close p = true
    entries_hold (entry key v map) p =
        let each = and_holds v p in
        let one = or_holds v p in
        let rest = entries_hold map p in
        (if key == "AND"
          then each
          else if key == "OR"
          then one
          else if key == "NOT"
          then not each
          else condition_holds v (get key p))
        && rest

    pub and_holds : Value N → Map String → Bool
    and_holds (array vs) p = all_hold vs p
    and_holds null p = false
    and_holds (bool b) p = false
    and_holds (number n) p = false
    and_holds (string s) p = false
    and_holds (object fs) p = false

    pub or_holds : Value N → Map String → Bool
    or_holds (array vs) p = some_holds vs p
    or_holds null p = false
    or_holds (bool b) p = false
    or_holds (number n) p = false
    or_holds (string s) p = false
    or_holds (object fs) p = false

    pub all_hold : Values N → Map String → Bool
    all_hold end p = true
    all_hold (item v vs) p = filter_holds v p && all_hold vs p

    pub some_holds : Values N → Map String → Bool
    some_holds end p = false
    some_holds (item v vs) p = filter_holds v p || some_holds vs p
