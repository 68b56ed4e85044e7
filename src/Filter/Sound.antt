-- ===== src/Filter/Sound.antt =====
-- The parsed filter, evaluated on a payload, says what the JSON says: core/src/filter.rs.
use memoria_mcp.Prelude.{
  String, Bool, true, false, not, ◌&&◌, ◌≡◌, refl, Option, none, some, List, ◌==◌, any,
  if◌then◌else◌, Result, ok, err, >>=-eq-ok, arith,
}
use memoria_mcp.Map.{Map, get}
use memoria_mcp.Float.{Float}
use memoria_mcp.Filter.{
  FilterValue, FilterOp, FilterExpr, FilterExprs, nil, cons, values_equal, evaluate_present,
  evaluate_op, evaluate, evaluate_all, evaluate_any,
}
use memoria_mcp.Filter.Parse.{
  Value, Values, Fields, null, bool, number, string, array, object, end, item, close, entry, extend,
  of_clauses, parse_filter_value, parse_values, parse_filter_values, expect_string, parse_op,
  parse_ops, parse_equality, parse_field_condition, parse_clause, parse_filter_expr, parse_clauses,
  parse_filter_list, parse_items,
}
use memoria_mcp.Filter.Meaning.{
  scalar, equals_some, is_member, text_of, op_holds, holds_present, ops_hold, present_equals,
  condition_holds, filter_holds, entries_hold, and_holds, or_holds, all_hold, some_holds,
}

module _ {F N : Type 0} (fl : Float F) (to_lowercase : String → String) (as_f64 : N → Option F)
    (show_number : N → String) (show : Value N → String) (debug : String → String) where
  evaluate_all-extend :
      (es fs : FilterExprs F) (p : Map String)
      → evaluate_all fl to_lowercase (extend es fs) p
        ≡ (evaluate_all fl to_lowercase es p && evaluate_all fl to_lowercase fs p)
  unfolding extend evaluate
  evaluate_all-extend nil fs p = refl
  evaluate_all-extend (cons e es) fs p = ground (arith, evaluate_all-extend es fs p)

  evaluate-of_clauses :
      (es : FilterExprs F) (p : Map String)
      → evaluate fl to_lowercase (of_clauses es) p ≡ evaluate_all fl to_lowercase es p
  unfolding of_clauses evaluate
  evaluate-of_clauses nil p = refl
  evaluate-of_clauses (cons e nil) p = ground arith
  evaluate-of_clauses (cons e (cons f es)) p = refl

  scalar_lem :
      (v : Value N) (x : FilterValue F)
      → parse_filter_value as_f64 show_number show debug v ≡ ok x
      → scalar fl to_lowercase as_f64 v ≡ some x
  unfolding parse_filter_value
  scalar_lem (string s) x h = ground arith
  scalar_lem (number n) x h = ground arith
  scalar_lem (bool b) x h = ground arith
  scalar_lem _ x h = cc

  values_lem :
      (vs : Values N) (xs : List (FilterValue F)) (s : String)
      → parse_values as_f64 show_number show debug vs ≡ ok xs
      → any (λ v. values_equal fl to_lowercase v s) xs ≡ equals_some fl to_lowercase as_f64 vs s
  unfolding parse_values
  values_lem end xs s h = ground arith
  values_lem (item v vs) xs s h =
      let (x, parsed, h') = >>=-eq-ok (parse_filter_value as_f64 show_number show debug v) _ h in
      let (ys, rest, h'') = >>=-eq-ok (parse_values as_f64 show_number show debug vs) _ h' in
      ground (arith, h'', scalar_lem v x parsed, values_lem vs ys s rest)

  scalar_eq :
      (v : Value N)
      → scalar fl to_lowercase as_f64 v
        ≡ elim (parse_filter_value as_f64 show_number show debug v) [ ok x ↦ some x | err e ↦ none ]
  unfolding parse_filter_value
  scalar_eq (string s) = refl
  scalar_eq (number n) = ground arith
  scalar_eq (bool b) = refl
  scalar_eq null = refl
  scalar_eq (array vs) = refl
  scalar_eq (object fs) = refl

  members_lem :
      (v : Value N) (xs : List (FilterValue F)) (s : String)
      → parse_filter_values as_f64 show_number show debug v ≡ ok xs
      → any (λ x. values_equal fl to_lowercase x s) xs ≡ is_member fl to_lowercase as_f64 v s
  unfolding parse_filter_values
  members_lem (array vs) xs s h = values_lem vs xs s h
  members_lem _ xs s h = cc

  text_lem :
      (v : Value N) (x : String)
      → expect_string as_f64 show_number show debug v ≡ ok x
      → text_of fl to_lowercase as_f64 v ≡ x
  unfolding expect_string
  text_lem (string s) x h = ground arith
  text_lem _ x h = cc

  -- One `match` arm of the parser against one test of the meaning.
  arm :
      {A : Type 0} (b : Bool) (r r' : Result String A) (f : A → Bool) (op : A) (t t' : Bool)
      → (r ≡ ok op → f op ≡ t)
      → (r' ≡ ok op → f op ≡ t')
      → (if b then r else r') ≡ ok op
      → f op ≡ (if b then t else t')
  arm true r r' f op t t' k k' h = k h
  arm false r r' f op t t' k k' h = k' h

  -- An operator that parses evaluates as the JSON says, at a payload that has the field.
  op_lem :
      (name : String) (v : Value N) (op : FilterOp F) (s : String)
      → parse_op as_f64 show_number show debug name v ≡ ok op
      → evaluate_op fl to_lowercase op (some s) ≡ op_holds fl to_lowercase as_f64 name v s
  unfolding parse_op evaluate_op evaluate_present
  op_lem name v op s =
      let f : FilterOp F → Bool = λ o. evaluate_op fl to_lowercase o (some s) in
      arm (name == "eq") _ _ f op _ _ (λ h. ground (arith, scalar_eq v))
        (arm (name == "ne") _ _ f op _ _ (λ h. ground (arith, scalar_eq v))
          (arm (name == "in") _ _ f op _ _
            (λ h.
              let (xs, p, e) =
                >>=-eq-ok (parse_filter_values as_f64 show_number show debug v) _ h in
              ground (arith, e, members_lem v xs s p))
            (arm (name == "nin") _ _ f op _ _
              (λ h.
                let (xs, p, e) =
                  >>=-eq-ok (parse_filter_values as_f64 show_number show debug v) _ h in
                ground (arith, e, members_lem v xs s p))
              (arm (name == "gt") _ _ f op _ _ (λ h. ground (arith, scalar_eq v))
                (arm (name == "gte") _ _ f op _ _ (λ h. ground (arith, scalar_eq v))
                  (arm (name == "lt") _ _ f op _ _ (λ h. ground (arith, scalar_eq v))
                    (arm (name == "lte") _ _ f op _ _ (λ h. ground (arith, scalar_eq v))
                      (arm (name == "contains") _ _ f op _ _
                        (λ h.
                          let (x, p, e) =
                            >>=-eq-ok (expect_string as_f64 show_number show debug v) _ h in
                          ground (arith, e, text_lem v x p))
                        (arm (name == "icontains") _ _ f op _ _
                          (λ h.
                            let (x, p, e) =
                              >>=-eq-ok (expect_string as_f64 show_number show debug v) _ h in
                            ground (arith, e, text_lem v x p))
                          (λ h. cc))))))))))

  absent_lem :
      (name : String) (v : Value N) (op : FilterOp F)
      → parse_op as_f64 show_number show debug name v ≡ ok op
      → evaluate_op fl to_lowercase op none ≡ false
  unfolding parse_op evaluate_op
  absent_lem name v op h = ground arith

  present_lem :
      (name : String) (v : Value N) (op : FilterOp F) (o : Option String)
      → parse_op as_f64 show_number show debug name v ≡ ok op
      → evaluate_op fl to_lowercase op o ≡ holds_present fl to_lowercase as_f64 name v o
  present_lem name v op (some s) h = op_lem name v op s h
  present_lem name v op none h = absent_lem name v op h

  ops_lem :
      (name : String) (ops : Fields N) (es : FilterExprs F) (p : Map String)
      → parse_ops as_f64 show_number show debug name ops ≡ ok es
      → evaluate_all fl to_lowercase es p ≡ ops_hold fl to_lowercase as_f64 ops (get name p)
  unfolding parse_ops evaluate
  ops_lem name close es p h = ground arith
  ops_lem name (entry k v ops) es p h =
      let (op, parsed, h') = >>=-eq-ok (parse_op as_f64 show_number show debug k v) _ h in
      let (rest, parsed', e) = >>=-eq-ok (parse_ops as_f64 show_number show debug name ops) _ h' in
      ground (arith, e, present_lem k v op (get name p) parsed, ops_lem name ops rest p parsed')

  equality_lem :
      (name : String) (v : Value N) (es : FilterExprs F) (p : Map String)
      → parse_equality as_f64 show_number show debug name v ≡ ok es
      → evaluate_all fl to_lowercase es p ≡ present_equals fl to_lowercase as_f64 v (get name p)
  unfolding parse_equality evaluate evaluate_op evaluate_present
  equality_lem name v es p h = ground (arith, scalar_eq v)

  condition_lem :
      (name : String) (v : Value N) (es : FilterExprs F) (p : Map String)
      → parse_field_condition as_f64 show_number show debug name v ≡ ok es
      → evaluate_all fl to_lowercase es p ≡ condition_holds fl to_lowercase as_f64 v (get name p)
  unfolding parse_field_condition
  condition_lem name (object ops) es p h = ops_lem name ops es p h
  condition_lem name (string s) es p h =
      arm (s == "*") (ok (cons (FilterExpr.field name FilterOp.wildcard) nil))
        (parse_equality as_f64 show_number show debug name (string s))
        (λ es'. evaluate_all fl to_lowercase es' p) es _ _
        (λ h'. unfold evaluate evaluate_op in ground arith)
        (λ h'. equality_lem name (string s) es p h') h
  condition_lem name null es p h = equality_lem name null es p h
  condition_lem name (bool b) es p h = equality_lem name (bool b) es p h
  condition_lem name (number n) es p h = equality_lem name (number n) es p h
  condition_lem name (array vs) es p h = equality_lem name (array vs) es p h

  abbrev Says : FilterExprs F → Map String → Bool → Bool → Type 0
  Says es p each one =
      (evaluate_all fl to_lowercase es p ≡ each) × (evaluate_any fl to_lowercase es p ≡ one)

  -- The arms of the loop over an object's entries.
  clause_lem :
      (key : String) (v : Value N) (r : Result String (FilterExprs F)) (es : FilterExprs F)
      (p : Map String) (each one : Bool)
      → ((gs : FilterExprs F) → r ≡ ok gs → Says gs p each one)
      → parse_clause as_f64 show_number show debug key v r ≡ ok es
      → evaluate_all fl to_lowercase es p ≡ (
          if key == "AND"
          then each
          else if key == "OR"
          then one
          else if key == "NOT"
          then not each
          else condition_holds fl to_lowercase as_f64 v (get key p))
  unfolding evaluate parse_clause
  clause_lem key v r es p each one group =
      let f : FilterExprs F → Bool = λ gs. evaluate_all fl to_lowercase gs p in
      arm (key == "AND") _ _ f es _ _
        (λ h. let (gs, parsed, e) = >>=-eq-ok r _ h in ground (arith, e, group gs parsed))
        (arm (key == "OR") _ _ f es _ _
          (λ h. let (gs, parsed, e) = >>=-eq-ok r _ h in ground (arith, e, group gs parsed))
          (arm (key == "NOT") _ _ f es _ _
            (λ h. let (gs, parsed, e) = >>=-eq-ok r _ h in ground (arith, e, group gs parsed))
            (λ h. condition_lem key v es p h)))

  mutual
    unfolding parse_filter_expr evaluate

    expr_lem :
        (v : Value N) (e : FilterExpr F) (p : Map String)
        → parse_filter_expr as_f64 show_number show debug v ≡ ok e
        → evaluate fl to_lowercase e p ≡ filter_holds fl to_lowercase as_f64 v p
    expr_lem (object map) e p h =
        let (es, parsed, h') = >>=-eq-ok (parse_clauses as_f64 show_number show debug map) _ h in
        ground (arith, h', evaluate-of_clauses es p, clauses_lem map es p parsed)
    expr_lem null e p h = cc
    expr_lem (bool b) e p h = cc
    expr_lem (number n) e p h = cc
    expr_lem (string s) e p h = cc
    expr_lem (array vs) e p h = cc

    clauses_lem :
        (map : Fields N) (es : FilterExprs F) (p : Map String)
        → parse_clauses as_f64 show_number show debug map ≡ ok es
        → evaluate_all fl to_lowercase es p ≡ entries_hold fl to_lowercase as_f64 map p
    clauses_lem close es p h = ground arith
    clauses_lem (entry key v map) es p h =
        let list = parse_filter_list as_f64 show_number show debug v in
        let (gs, parsed, h') =
          >>=-eq-ok (parse_clause as_f64 show_number show debug key v list) _ h in
        let (rest, parsed', e) = >>=-eq-ok (parse_clauses as_f64 show_number show debug map) _ h' in
        ground (
          arith,
          e,
          evaluate_all-extend gs rest p,
          clause_lem key v list gs p _ _ (λ ls q. list_lem v ls p q) parsed,
          clauses_lem map rest p parsed',
        )

    list_lem :
        (v : Value N) (es : FilterExprs F) (p : Map String)
        → parse_filter_list as_f64 show_number show debug v ≡ ok es
        → Says es p (and_holds fl to_lowercase as_f64 v p) (or_holds fl to_lowercase as_f64 v p)
    list_lem (array vs) es p h = items_lem vs es p h
    list_lem null es p h = cc
    list_lem (bool b) es p h = cc
    list_lem (number n) es p h = cc
    list_lem (string s) es p h = cc
    list_lem (object fs) es p h = cc

    items_lem :
        (vs : Values N) (es : FilterExprs F) (p : Map String)
        → parse_items as_f64 show_number show debug vs ≡ ok es
        → Says es p (all_hold fl to_lowercase as_f64 vs p) (some_holds fl to_lowercase as_f64 vs p)
    items_lem end es p h = ground arith
    items_lem (item v vs) es p h =
        let (x, parsed, h') = >>=-eq-ok (parse_filter_expr as_f64 show_number show debug v) _ h in
        let (xs, parsed', e) = >>=-eq-ok (parse_items as_f64 show_number show debug vs) _ h' in
        ground (arith, e, expr_lem v x p parsed, items_lem vs xs p parsed')

  -- Whenever the parser accepts a JSON filter, evaluating the parsed expression on any payload gives
  -- exactly what the JSON says of it: every entry of an object holds, `AND` wants all its items, `OR`
  -- one, `NOT` that not all hold, an operator on an absent field fails, and the condition `"*"` holds
  -- of every field, an absent one too.
  pub evaluate-parse_filter_expr :
      (v : Value N) (e : FilterExpr F) (p : Map String)
      → parse_filter_expr as_f64 show_number show debug v ≡ ok e
      → evaluate fl to_lowercase e p ≡ filter_holds fl to_lowercase as_f64 v p
  evaluate-parse_filter_expr v e p h = expr_lem v e p h
