-- ===== src/Tests/Filters.antt =====
-- A filter with two fields, one of them under an operator, parsed and evaluated.
use memoria_mcp.Prelude.{ℕ, ◌≡◌, refl, some, ok}
use memoria_mcp.Filter.{FilterExpr, evaluate, cons, nil, eq, ne}
use memoria_mcp.Filter
use memoria_mcp.Filter.Parse.{
  Value, object, entry, close, string, parse_filter_expr, parse_clause, parse_field_condition,
  parse_filter_value, parse_ops, parse_op, of_clauses, extend,
}
use memoria_mcp.Filter.Meaning.{filter_holds}
use memoria_mcp.Filter.Sound.{evaluate-parse_filter_expr}
use memoria_mcp.Tests.Samples.{hundredths, alice}

abbrev by_user : Value ℕ
by_user = object (
    entry "user_id" (string "alice")
      (entry "topic" (object (entry "ne" (string "tea") close)) close))

abbrev parsed : FilterExpr ℕ
parsed = FilterExpr.conj (
    cons (FilterExpr.field "user_id" (eq (Filter.string "alice")))
      (cons (FilterExpr.field "topic" (ne (Filter.string "tea"))) nil))

parses : parse_filter_expr (λ n. some n) (λ n. "number") (λ v. "value") (λ s. s) by_user ≡ ok parsed
unfolding parse_filter_expr parse_clause parse_field_condition parse_filter_value parse_ops parse_op
    of_clauses extend
parses = refl

evaluate-parse_filter_expr_example :
    evaluate hundredths (λ s. s) parsed alice
    ≡ filter_holds hundredths (λ s. s) (λ n. some n) by_user alice
evaluate-parse_filter_expr_example =
    evaluate-parse_filter_expr hundredths (λ s. s) (λ n. some n) (λ n. "number") (λ v. "value")
      (λ s. s) by_user parsed alice parses
