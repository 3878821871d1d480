-- ===== src/Expr/Returns.antt =====
-- What `parse_expression` of crates/levshell-context/src/expr.rs can return.
use levshell.Prelude.{ℕ, suc, ◌≤◌, Text, Option, [], ◌∷◌, length, arith}
use levshell.Expr.Syntax.{
  Expression, parse, eval, unknown_signal, Result, ok, err, exhausted, ◌>>=◌,
}
use levshell.Expr.Lexer.{tokenize}
use levshell.Expr.Lexer.Positions.{Increasing, Located, tokenize-Located}
use levshell.Expr.Parser.{
  Tokens, Parsed, parse_or, end_position, fuel_for, all_read, parse_tokens, parse_expression,
}
use levshell.Expr.Parser.Totality.{Within, ErrorWithin, Leaves, parse_or-returns}

-- An expression, or a parse error at `bound` or before it.
abbrev pub ReturnsWithin : {N : Type 0} → ℕ → Result (Expression N) → Type 0
ReturnsWithin bound (ok e) = Unit
ReturnsWithin bound (err e) = ErrorWithin bound e
ReturnsWithin bound exhausted = ⊥

module _ {N : Type 0} where
  Increasing-Within : (lo hi : ℕ) (ts : Tokens N) → Increasing lo hi ts → Within hi ts
  Increasing-Within lo hi [] i = tt
  Increasing-Within lo hi (t ∷ ts) i = (omega arith, Increasing-Within (suc t.position) hi ts i.2)

  end_position-le : (lo hi : ℕ) (ts : Tokens N) → Increasing lo hi ts → end_position ts ≤ hi
  unfolding end_position
  end_position-le lo hi [] i = omega arith
  end_position-le lo hi (t ∷ []) i = omega arith
  end_position-le lo hi (t ∷ u ∷ ts) i = end_position-le (suc t.position) hi (u ∷ ts) i.2

  all_read-Returns :
      (hi n : ℕ) (r : Parsed N (Expression N))
      → Leaves hi n r
      → ReturnsWithin hi (r >>= λ (expr, rest). all_read expr rest)
  all_read-Returns hi n (ok (expr, [])) l = tt
  all_read-Returns hi n (ok (expr, t ∷ ts)) l = l.1.0
  all_read-Returns hi n (err e) l = l
  all_read-Returns hi n exhausted l = l

  parse_tokens-Returns :
      (hi : ℕ) (ts : Tokens N) → Increasing 0 hi ts → ReturnsWithin hi (parse_tokens ts)
  unfolding parse_tokens
  parse_tokens-Returns hi ts i =
      all_read-Returns hi (length ts) (parse_or (end_position ts) (fuel_for ts) ts) (
        parse_or-returns (end_position ts) hi (end_position-le 0 hi ts i) (fuel_for ts) ts
          (Increasing-Within 0 hi ts i) (omega arith))

  tokens-Returns :
      (hi : ℕ) (r : Result (Tokens N))
      → Located 0 hi r
      → ReturnsWithin hi (r >>= λ ts. parse_tokens ts)
  tokens-Returns hi (ok ts) l = parse_tokens-Returns hi ts l
  tokens-Returns hi (err (parse m p)) l = omega arith
  tokens-Returns hi (err (eval m)) l = absurd l
  tokens-Returns hi (err (unknown_signal s)) l = absurd l
  tokens-Returns hi exhausted l = absurd l

  -- On every text the parser returns: an expression, or a parse error whose position is a byte
  -- offset of the text or its end. The bound on the recursion is never what stops it.
  pub parse_expression-Returns :
      (parse_f64 : Text → Option N) (src : Text)
      → ReturnsWithin (length src) (parse_expression parse_f64 src)
  unfolding parse_expression
  parse_expression-Returns parse_f64 src =
      tokens-Returns (length src) (tokenize parse_f64 src) (tokenize-Located parse_f64 src)
