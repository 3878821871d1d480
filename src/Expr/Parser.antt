-- ===== src/Expr/Parser.antt =====
-- The recursive descent of crates/levshell-context/src/expr.rs. `Parser { tokens, pos }` is the list
-- of the tokens from `pos` on; `finish` is what `peek_position` returns behind the last of them.
-- The recursion takes fuel: `fuel_for` the tokens.
pub mod Totality
use levshell.Prelude.{
  ℕ, zero, suc, ◌+◌, ◌*◌, Text, Bool, true, false, Option, none, some, List, [], ◌∷◌, ◌++◌, length,
}
use levshell.Expr.Syntax.{
  CompareOp, Term, signal, literal, Literal, Expression, compare, truthy, expected_rparen,
  needs_comparison, unexpected_after_expression, expected_identifier, unexpected_in_term,
  unexpected_end, ContextError, parse, Result, ok, err, exhausted, ◌>>=◌,
}
use levshell.Expr.Lexer.{Token, SpannedToken, tokenize}

abbrev pub Tokens : Type 0 → Type 0
Tokens N = List (SpannedToken N)

abbrev pub Parsed : Type 0 → Type 0 → Type 0
Parsed N A = Result (A × Tokens N)

module _ {N : Type 0} where
  abbrev pub peek : Tokens N → Option (Token N)
  peek [] = none
  peek (t ∷ ts) = some t.token

  abbrev pub advance : Tokens N → Tokens N
  advance [] = []
  advance (t ∷ ts) = ts

  -- `tokens.last().map(|t| t.position + 1).unwrap_or(0)`.
  unfoldable pub end_position : Tokens N → ℕ
  end_position [] = 0
  end_position (t ∷ []) = t.position + 1
  end_position (t ∷ u ∷ ts) = end_position (u ∷ ts)

  abbrev pub peek_position : ℕ → Tokens N → ℕ
  peek_position finish [] = finish
  peek_position finish (t ∷ ts) = t.position

  -- What `matches!` asks of the next token.
  abbrev pub is_or : Option (Token N) → Bool
  is_or (some Token.or) = true
  is_or _ = false

  abbrev pub is_and : Option (Token N) → Bool
  is_and (some Token.and) = true
  is_and _ = false

  abbrev pub is_not : Option (Token N) → Bool
  is_not (some Token.not) = true
  is_not _ = false

  abbrev pub is_lparen : Option (Token N) → Bool
  is_lparen (some Token.lparen) = true
  is_lparen _ = false

  abbrev pub is_rparen : Option (Token N) → Bool
  is_rparen (some Token.rparen) = true
  is_rparen _ = false

  -- The comparison operator that the next token is.
  abbrev pub compare_op : Option (Token N) → Option CompareOp
  compare_op (some (Token.op o)) = some o
  compare_op (some Token.contains) = some CompareOp.contains
  compare_op _ = none

module _ {N : Type 0} (finish : ℕ) where
  -- The loop over `.` and identifiers, behind the first identifier.
  unfoldable pub path_loop : Text → Tokens N → Parsed N Text
  path_loop path [] = ok (path, [])
  path_loop path (t ∷ []) = elim t.token [
    | Token.dot ↦ err (parse expected_identifier finish)
    | _ ↦ ok (path, t ∷ [])
  ]
  path_loop path (t ∷ u ∷ ts) =
      let failed : Parsed N Text = err (parse expected_identifier (peek_position finish ts)) in
      elim t.token [
        | Token.dot ↦ elim u.token [
          | Token.ident next ↦ path_loop (path ++ 46 ∷ next) ts
          | _ ↦ failed
        ]
        | _ ↦ ok (path, t ∷ u ∷ ts)
      ]

  unfoldable pub parse_term : Tokens N → Parsed N (Term N)
  unfolding path_loop
  parse_term [] = err (parse unexpected_end finish)
  parse_term (t ∷ ts) = elim t.token [
    | Token.number n ↦ ok (literal (Literal.number n), ts)
    | Token.string s ↦ ok (literal (Literal.string s), ts)
    | Token.bool b ↦ ok (literal (Literal.bool b), ts)
    | Token.ident first ↦ do (path, rest) ← path_loop first ts; ok (signal path, rest)
    | _ ↦ err (parse unexpected_in_term t.position)
  ]

  -- A term that stands alone.
  unfoldable pub bare_term : ℕ → Term N → Result (Expression N)
  bare_term lhs_pos (signal path) = ok (truthy (signal path))
  bare_term lhs_pos (literal (Literal.bool b)) = ok (truthy (literal (Literal.bool b)))
  bare_term lhs_pos (literal (Literal.number n)) = err (parse needs_comparison lhs_pos)
  bare_term lhs_pos (literal (Literal.string s)) = err (parse needs_comparison lhs_pos)

  unfoldable pub parse_comparison : Tokens N → Parsed N (Expression N)
  unfolding parse_term bare_term
  parse_comparison ts = do
    (lhs, ts1) ← parse_term ts
    elim (compare_op (peek ts1)) [
      | some op ↦ parse_term (advance ts1) >>= λ (rhs, ts2). ok (compare lhs op rhs, ts2)
      | none ↦ bare_term (peek_position finish ts) lhs >>= λ e. ok (e, ts1)
    ]

  -- `)` after an expression in parentheses.
  unfoldable pub close_paren : Expression N → Tokens N → Parsed N (Expression N)
  close_paren inner ts = elim (is_rparen (peek ts)) [
    | true ↦ ok (inner, advance ts)
    | false ↦ err (parse expected_rparen (peek_position finish (advance ts)))
  ]

  unfoldable mutual
    unfolding parse_comparison close_paren

    pub parse_or : ℕ → Tokens N → Parsed N (Expression N)
    parse_or zero ts = exhausted
    parse_or (suc f) ts = parse_and f ts >>= λ (lhs, ts1). or_loop f lhs ts1

    pub or_loop : ℕ → Expression N → Tokens N → Parsed N (Expression N)
    or_loop zero lhs ts = exhausted
    or_loop (suc f) lhs ts = elim (is_or (peek ts)) [
      | true ↦ parse_and f (advance ts) >>= λ (rhs, ts1). or_loop f (Expression.or lhs rhs) ts1
      | false ↦ ok (lhs, ts)
    ]

    pub parse_and : ℕ → Tokens N → Parsed N (Expression N)
    parse_and zero ts = exhausted
    parse_and (suc f) ts = parse_unary f ts >>= λ (lhs, ts1). and_loop f lhs ts1

    pub and_loop : ℕ → Expression N → Tokens N → Parsed N (Expression N)
    and_loop zero lhs ts = exhausted
    and_loop (suc f) lhs ts = elim (is_and (peek ts)) [
      | true ↦ parse_unary f (advance ts) >>= λ (rhs, ts1). and_loop f (Expression.and lhs rhs) ts1
      | false ↦ ok (lhs, ts)
    ]

    pub parse_unary : ℕ → Tokens N → Parsed N (Expression N)
    parse_unary zero ts = exhausted
    parse_unary (suc f) ts = elim (is_not (peek ts)) [
      | true ↦ parse_unary f (advance ts) >>= λ (inner, ts1). ok (Expression.not inner, ts1)
      | false ↦ parse_atom f ts
    ]

    pub parse_atom : ℕ → Tokens N → Parsed N (Expression N)
    parse_atom zero ts = exhausted
    parse_atom (suc f) ts = elim (is_lparen (peek ts)) [
      | true ↦ parse_or f (advance ts) >>= λ (inner, ts1). close_paren inner ts1
      | false ↦ parse_comparison ts
    ]

module _ {N : Type 0} where
  abbrev pub fuel_for : Tokens N → ℕ
  fuel_for ts = 6 * length ts + 4

  -- No token may be left over.
  abbrev pub all_read : Expression N → Tokens N → Result (Expression N)
  all_read expr [] = ok expr
  all_read expr (t ∷ ts) = err (parse unexpected_after_expression t.position)

  unfoldable pub parse_tokens : Tokens N → Result (Expression N)
  unfolding parse_or end_position
  parse_tokens ts =
      parse_or (end_position ts) (fuel_for ts) ts >>= λ (expr, rest). all_read expr rest

  unfoldable pub parse_expression : (Text → Option N) → Text → Result (Expression N)
  unfolding parse_tokens tokenize
  parse_expression parse_f64 src = tokenize parse_f64 src >>= λ ts. parse_tokens ts
