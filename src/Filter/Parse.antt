-- ===== src/Filter/Parse.antt =====
-- core/src/filter.rs: the parser of filters from JSON. `serde_json::Value` is a type of a library:
-- its shape is modelled, and `Value::as_f64` and `Display` are parameters.
use memoria_mcp.Prelude.{
  String, Bool, Option, none, some, List, [], ◌∷◌, ◌==◌, if◌then◌else◌, Result, ok, err, ◌>>=◌,
  format,
}
use memoria_mcp.Filter.{FilterValue, FilterOp, FilterExpr, FilterExprs, nil, cons}

mutual
  pub data Value (N : Type 0) : Type 0 where
    null : Value N
    bool : Bool → Value N
    number : N → Value N
    string : String → Value N
    array : Values N → Value N
    object : Fields N → Value N

  pub data Values (N : Type 0) : Type 0 where
    end : Values N
    item : Value N → Values N → Values N

  pub data Fields (N : Type 0) : Type 0 where
    close : Fields N
    entry : String → Value N → Fields N → Fields N

-- `Vec::extend`
unfoldable pub extend : {F : Type 0} → FilterExprs F → FilterExprs F → FilterExprs F
extend nil fs = fs
extend (cons e es) fs = cons e (extend es fs)

-- The `Ok(if clauses.len() == 1 ...)` of `parse_filter_expr`.
unfoldable pub of_clauses : {F : Type 0} → FilterExprs F → FilterExpr F
of_clauses (cons e nil) = e
of_clauses es = FilterExpr.conj es

module _ {F N : Type 0} (as_f64 : N → Option F) (show_number : N → String) (show : Value N → String)
    (debug : String → String) where
  unfoldable pub parse_filter_value : Value N → Result String (FilterValue F)
  parse_filter_value (string s) = ok (FilterValue.string s)
  parse_filter_value (number n) = elim (as_f64 n) [
    | some x ↦ ok (FilterValue.number x)
    | none ↦ err (format ("filter number " ∷ show_number n ∷ " is out of range" ∷ []))
  ]
  parse_filter_value (bool b) = ok (FilterValue.bool b)
  parse_filter_value other =
      err (format ("filter value " ∷ show other ∷ " must be a string, number, or boolean" ∷ []))

  -- `items.iter().map(parse_filter_value).collect()`
  unfoldable pub parse_values : Values N → Result String (List (FilterValue F))
  parse_values end = ok []
  parse_values (item v vs) = do x ← parse_filter_value v; xs ← parse_values vs; ok (x ∷ xs)

  unfoldable pub parse_filter_values : Value N → Result String (List (FilterValue F))
  parse_filter_values (array items) = parse_values items
  parse_filter_values value = err (format ("filter value " ∷ show value ∷ " must be an array" ∷ []))

  unfoldable pub expect_string : Value N → Result String String
  expect_string (string s) = ok s
  expect_string other = err (format ("filter value " ∷ show other ∷ " must be a string" ∷ []))

  -- The `match op_name` of `parse_field_condition`.
  unfoldable pub parse_op : String → Value N → Result String (FilterOp F)
  parse_op name v =
      if name == "eq"
      then (do x ← parse_filter_value v; ok (FilterOp.eq x))
      else if name == "ne"
      then (do x ← parse_filter_value v; ok (FilterOp.ne x))
      else if name == "in"
      then (do xs ← parse_filter_values v; ok (FilterOp.one_of xs))
      else if name == "nin"
      then (do xs ← parse_filter_values v; ok (FilterOp.nin xs))
      else if name == "gt"
      then (do x ← parse_filter_value v; ok (FilterOp.gt x))
      else if name == "gte"
      then (do x ← parse_filter_value v; ok (FilterOp.gte x))
      else if name == "lt"
      then (do x ← parse_filter_value v; ok (FilterOp.lt x))
      else if name == "lte"
      then (do x ← parse_filter_value v; ok (FilterOp.lte x))
      else if name == "contains"
      then (do x ← expect_string v; ok (FilterOp.contains x))
      else if name == "icontains"
      then (do x ← expect_string v; ok (FilterOp.icontains x))
      else err (format ("unknown filter operator " ∷ debug name ∷ []))

  -- The `for` loop over the operators of one field.
  unfoldable pub parse_ops : String → Fields N → Result String (FilterExprs F)
  parse_ops name close = ok nil
  parse_ops name (entry op_name v ops) = do
    op ← parse_op op_name v
    rest ← parse_ops name ops
    ok (cons (FilterExpr.field name op) rest)

  -- The condition that is no object and not `"*"`.
  unfoldable pub parse_equality : String → Value N → Result String (FilterExprs F)
  parse_equality name condition = do
    v ← parse_filter_value condition
    ok (cons (FilterExpr.field name (FilterOp.eq v)) nil)

  unfoldable pub parse_field_condition : String → Value N → Result String (FilterExprs F)
  unfolding parse_equality
  parse_field_condition name (object ops) = parse_ops name ops
  parse_field_condition name (string s) =
      if s == "*"
      then ok (cons (FilterExpr.field name FilterOp.wildcard) nil)
      else parse_equality name (string s)
  parse_field_condition name condition = parse_equality name condition

  -- The `match key` of `parse_filter_expr`; `group` is `parse_filter_list(condition)`.
  unfoldable pub parse_clause :
      String → Value N → Result String (FilterExprs F) → Result String (FilterExprs F)
  parse_clause key condition group =
      if key == "AND"
      then (do es ← group; ok (cons (FilterExpr.conj es) nil))
      else if key == "OR"
      then (do es ← group; ok (cons (FilterExpr.disj es) nil))
      else if key == "NOT"
      then (do es ← group; ok (cons (FilterExpr.neg (FilterExpr.conj es)) nil))
      else parse_field_condition key condition

  not_an_object : Value N → Result String (FilterExpr F)
  not_an_object v = err (format ("filters must be a JSON object, got " ∷ show v ∷ []))

  not_an_array : Value N → Result String (FilterExprs F)
  not_an_array v = err (format ("AND/OR/NOT must hold a JSON array, got " ∷ show v ∷ []))

  -- `parse_clauses` is the `for` loop over the object's entries, `parse_items` the
  -- `items.iter().map(parse_filter_expr).collect()` of `parse_filter_list`.
  unfoldable mutual
    unfolding not_an_object not_an_array

    pub parse_filter_expr : Value N → Result String (FilterExpr F)
    parse_filter_expr (object map) = do clauses ← parse_clauses map; ok (of_clauses clauses)
    parse_filter_expr null = not_an_object null
    parse_filter_expr (bool b) = not_an_object (bool b)
    parse_filter_expr (number n) = not_an_object (number n)
    parse_filter_expr (string s) = not_an_object (string s)
    parse_filter_expr (array vs) = not_an_object (array vs)

    pub parse_clauses : Fields N → Result String (FilterExprs F)
    parse_clauses close = ok nil
    parse_clauses (entry key condition map) =
        let group = parse_filter_list condition in
        let rest = parse_clauses map in
        do clauses ← parse_clause key condition group; later ← rest; ok (extend clauses later)

    pub parse_filter_list : Value N → Result String (FilterExprs F)
    parse_filter_list (array items) = parse_items items
    parse_filter_list null = not_an_array null
    parse_filter_list (bool b) = not_an_array (bool b)
    parse_filter_list (number n) = not_an_array (number n)
    parse_filter_list (string s) = not_an_array (string s)
    parse_filter_list (object fs) = not_an_array (object fs)

    pub parse_items : Values N → Result String (FilterExprs F)
    parse_items end = ok nil
    parse_items (item v vs) = do e ← parse_filter_expr v; es ← parse_items vs; ok (cons e es)
