-- ===== src/Examples/ExprRuns.antt =====
-- Rules of crates/levshell-context/src/expr.rs, read and evaluated.
use levshell.Prelude.{
  ℕ, ◌≡◌, refl, Text, bytes, text_eq, lookup, true, false, Option, none, some, [], ◌∷◌, ltb, leb,
  ◌==◌, ◌%◌, length, if◌then◌else◌, arith,
}
use levshell.Signals.{SignalValue, SignalContext, get, as_number}
use levshell.Expr.Syntax.{
  CompareOp, signal, literal, Literal, Expression, compare, truthy, ok, Numbers,
}
use levshell.Expr.Lexer.{
  tokenize, tokenize_from, next_token, scan_number, scan_literal, scan_string, keyword, take_while,
  is_whitespace, is_digit, is_ident_start, is_ident_byte, starts_with_byte, number_lexeme,
}
use levshell.Expr.Lexer.Positions.{Located, tokenize-Located}
use levshell.Expr.Parser.{
  parse_expression, parse_tokens, parse_or, or_loop, parse_and, and_loop, parse_unary, parse_atom,
  parse_comparison, parse_term, path_loop, close_paren,
}
use levshell.Expr.Returns.{ReturnsWithin, parse_expression-Returns}
use levshell.Expr.Eval.{
  evaluate, eval_compare, compare_values, eval_order, resolve_term, eval_truthy, truth_of,
}
use levshell.Expr.Eval.Laws.{evaluate_laws}
use levshell.Expr.Eval.Typing.{SignalType, Conforms, Succeeds, well_typed, evaluate-Succeeds}
use levshell.Expr.Print.{print, place, or_level}
use levshell.Expr.Print.RoundTrip.{parse_tokens-print}

-- Numbers of one digit, in place of f64.
abbrev pub one_digit : Text → Option ℕ
one_digit (c ∷ []) = some (c % 48)
one_digit _ = none

abbrev pub digits : Numbers ℕ
digits = record { num_eq = λ a b. a == b; num_lt = ltb; num_le = leb; parse_f64 = one_digit }

abbrev pub battery_rule : Text
battery_rule = bytes "battery.level <= 9 and not power.charging"

-- The tree of the rule.
abbrev pub battery_tree : Expression ℕ
battery_tree =
    Expression.and
      (compare (signal (bytes "battery.level")) CompareOp.lt_eq (literal (Literal.number 9)))
      (Expression.not (truthy (signal (bytes "power.charging"))))

abbrev pub battery_signals : SignalContext ℕ
battery_signals = record {
  values =
      (bytes "battery.level", SignalValue.number 5)
      ∷ (bytes "power.charging", SignalValue.bool false)
      ∷ [];
}

tokenize-Located_example : Located 0 (length battery_rule) (tokenize one_digit battery_rule)
tokenize-Located_example = tokenize-Located one_digit battery_rule

parse_expression-Returns_example :
    ReturnsWithin (length battery_rule) (parse_expression one_digit battery_rule)
parse_expression-Returns_example = parse_expression-Returns one_digit battery_rule

parse_tokens-print_example :
    parse_tokens (place (λ t. 1) 0 (print battery_tree or_level)) ≡ ok battery_tree
parse_tokens-print_example = parse_tokens-print (λ t. 1) battery_tree 0 (tt, tt)

evaluate_laws_example :
    (evaluate digits
        (Expression.not (Expression.and battery_tree (truthy (signal []))))
        battery_signals
      ≡ evaluate digits
          (Expression.or (Expression.not battery_tree) (Expression.not (truthy (signal []))))
          battery_signals)
    × (evaluate digits
          (Expression.not (Expression.or battery_tree (truthy (signal []))))
          battery_signals
        ≡ evaluate digits
            (Expression.and (Expression.not battery_tree) (Expression.not (truthy (signal []))))
            battery_signals)
    × (evaluate digits
          (Expression.and (Expression.and battery_tree (truthy (signal []))) battery_tree)
          battery_signals
        ≡ evaluate digits
            (Expression.and battery_tree (Expression.and (truthy (signal [])) battery_tree))
            battery_signals)
evaluate_laws_example =
    evaluate_laws digits battery_signals battery_tree (truthy (signal [])) battery_tree

-- The battery's level is a number, every other signal a Boolean.
abbrev declared : Text → SignalType
declared name = if text_eq (bytes "battery.level") name then SignalType.number else SignalType.bool

signals-Conforms : Conforms declared battery_signals
unfolding get lookup
signals-Conforms name v e = ground arith

rule_typed : well_typed declared battery_tree ≡ true
unfolding text_eq
rule_typed = refl

evaluate-Succeeds_example : Succeeds (evaluate digits battery_tree battery_signals)
evaluate-Succeeds_example =
    evaluate-Succeeds digits declared battery_signals battery_tree signals-Conforms rule_typed

battery_parses : parse_expression one_digit battery_rule ≡ ok battery_tree
unfolding parse_expression parse_tokens tokenize tokenize_from next_token scan_number scan_literal
    scan_string keyword text_eq take_while parse_or or_loop parse_and and_loop parse_unary
    parse_atom parse_comparison parse_term path_loop close_paren is_whitespace is_digit
    is_ident_start is_ident_byte starts_with_byte number_lexeme
battery_parses = refl

battery_fires : evaluate digits battery_tree battery_signals ≡ ok true
unfolding evaluate eval_compare compare_values eval_order resolve_term eval_truthy truth_of get
    lookup text_eq as_number
battery_fires = refl
