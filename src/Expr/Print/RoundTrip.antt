-- ===== src/Expr/Print/RoundTrip.antt =====
-- What the parser of crates/levshell-context/src/expr.rs makes of the tokens that `print` writes.
mod Terms
mod Steps
use mathlib.Core.List.{append_assoc, append-nil}
use levshell.Prelude.{
  ℕ, zero, suc, ◌+◌, ◌*◌, ◌≤◌, ◌<◌, ◌≡◌, refl, sym, ap, ◌∙◌, Text, Bool, true, false, Option, none,
  some, List, [], ◌∷◌, ◌++◌, length, length-append, arith, ◌==◌, if◌then◌else◌, Bool-cases, inl,
  inr,
}
use levshell.Expr.Syntax.{
  CompareOp, Term, signal, literal, Literal, Expression, compare, truthy, Result, ok, err,
  exhausted, ◌>>=◌,
}
use levshell.Expr.Lexer.{Token, SpannedToken}
use levshell.Expr.Parser.{
  Tokens, Parsed, peek, advance, is_or, is_and, is_not, is_lparen, is_rparen, compare_op, path_loop,
  parse_term, bare_term, parse_comparison, close_paren, parse_or, or_loop, parse_and, and_loop,
  parse_unary, parse_atom, parse_tokens, fuel_for, all_read, end_position, peek_position,
}
use levshell.Expr.Print.{
  split_path, dotted, term_tokens, op_token, in_parens, Level, or_level, and_level, unary_level,
  print, StandsAlone, IsPrintable, place, place_end,
}
use Terms.{bind_ok, EndsTerm, parse_comparison-truthy, parse_comparison-compare}
use Steps.{
  OrReads, AndReads, UnaryReads, or_loop-stop, and_of_unary, or_of_and, or_step, and_step,
  parens_step, not_step,
}

module _ {N : Type 0} (finish : ℕ) (width : Token N → ℕ) where
  length_term : (t : Term N) → 1 ≤ length (term_tokens t)
  length_term (signal name) = omega arith
  length_term (literal (Literal.number n)) = omega arith
  length_term (literal (Literal.string s)) = omega arith
  length_term (literal (Literal.bool b)) = omega arith

  starts_term :
      (t : Term N) (i : ℕ) (rest : Tokens N)
      → (is_not (peek (place width i (term_tokens t) ++ rest)) ≡ false)
        × (is_lparen (peek (place width i (term_tokens t) ++ rest)) ≡ false)
  starts_term (signal name) i rest = (refl, refl)
  starts_term (literal (Literal.number n)) i rest = (refl, refl)
  starts_term (literal (Literal.string s)) i rest = (refl, refl)
  starts_term (literal (Literal.bool b)) i rest = (refl, refl)

  starts_comparison :
      (t : Term N) (i : ℕ) (ts : List (Token N)) (rest : Tokens N)
      → (is_not (peek (place width i (term_tokens t ++ ts) ++ rest)) ≡ false)
        × (is_lparen (peek (place width i (term_tokens t ++ ts) ++ rest)) ≡ false)
  starts_comparison (signal name) i ts rest = (refl, refl)
  starts_comparison (literal (Literal.number n)) i ts rest = (refl, refl)
  starts_comparison (literal (Literal.string s)) i ts rest = (refl, refl)
  starts_comparison (literal (Literal.bool b)) i ts rest = (refl, refl)

  atom_of_comparison :
      (f : ℕ) (ts : Tokens N)
      → is_lparen (peek ts) ≡ false
      → parse_atom finish (suc f) ts ≡ parse_comparison finish ts
  unfolding parse_atom
  atom_of_comparison f ts l = rw (l, parse_atom)

  unary_of_comparison :
      (f : ℕ) (ts : Tokens N)
      → 2 ≤ f
      → is_not (peek ts) ≡ false
      → is_lparen (peek ts) ≡ false
      → parse_unary finish f ts ≡ parse_comparison finish ts
  unfolding parse_unary
  unary_of_comparison zero ts h n l = absurd (omega arith)
  unary_of_comparison (suc zero) ts h n l = absurd (omega arith)
  unary_of_comparison (suc (suc f)) ts h n l = rw (n, parse_unary) (atom_of_comparison f ts l)

  abbrev Reads : Expression N → Type 0
  Reads e = OrReads finish width e × AndReads finish width e × UnaryReads finish width e

  from_unary :
      (e : Expression N)
      → print e or_level ≡ print e and_level
      → print e and_level ≡ print e unary_level
      → UnaryReads finish width e
      → Reads e
  from_unary e p q u =
      let a = and_of_unary finish width e q u in (or_of_and finish width e p a, a, u)

  print-Reads : (e : Expression N) → IsPrintable e → Reads e
  print-Reads (Expression.or a b) (pa, pb) =
      let e = Expression.or a b in
      let o = or_step finish width a b (print-Reads a pa).0 (print-Reads b pb).1 in
      let u = parens_step finish width e refl o in (o, and_of_unary finish width e refl u, u)
  print-Reads (Expression.and a b) (pa, pb) =
      let e = Expression.and a b in
      let c = and_step finish width a b (print-Reads a pa).1 (print-Reads b pb).2 in
      let o = or_of_and finish width e refl c in (o, c, parens_step finish width e refl o)
  print-Reads (Expression.not a) p =
      from_unary (Expression.not a) refl refl (not_step finish width a (print-Reads a p).2)
  print-Reads (truthy t) p = from_unary (truthy t) refl refl λ i f rest ends h.
      unary_of_comparison f (place width i (term_tokens t) ++ rest) (omega (arith, length_term t))
        (starts_term t i rest).0 (starts_term t i rest).1
      ∙ parse_comparison-truthy finish width t i rest p ends
  print-Reads (compare l op r) p = from_unary (compare l op r) refl refl λ i f rest ends h.
      let after = op_token op ∷ term_tokens r in
      unary_of_comparison f (place width i (term_tokens l ++ after) ++ rest)
        (omega (arith, length-append (term_tokens l) after)) (starts_comparison l i after rest).0
        (starts_comparison l i after rest).1
      ∙ parse_comparison-compare finish width l r op i rest ends

  -- The parser reads a printed expression back, whatever the positions of its tokens are.
  pub parse_or-print :
      (e : Expression N) (i f : ℕ)
      → IsPrintable e
      → 6 * length (print e or_level) + 4 ≤ f
      → parse_or finish f (place width i (print e or_level)) ≡ ok (e, [])
  parse_or-print e i f p h =
      let (g, near, reads) = (print-Reads e p).0 i f [] (refl, refl, refl) h in
      rw (append-nil) at (reads ∙ or_loop-stop finish width g e [] (omega arith) refl)

module _ {N : Type 0} where
  length-place :
      (width : Token N → ℕ) (i : ℕ) (ts : List (Token N)) → length (place width i ts) ≡ length ts
  length-place width i [] = refl
  length-place width i (t ∷ ts) = ap suc (length-place width (i + width t) ts)

  -- Every expression that has a text is read back from its printed tokens, whatever positions the
  -- tokens have: `or` binds weaker than `and`, `and` weaker than `not`, and both group to the left.
  pub parse_tokens-print :
      (width : Token N → ℕ) (e : Expression N) (i : ℕ)
      → IsPrintable e
      → parse_tokens (place width i (print e or_level)) ≡ ok e
  unfolding parse_tokens
  parse_tokens-print width e i p =
      let ts = place width i (print e or_level) in
      bind_ok (parse_or (end_position ts) (fuel_for ts) ts) _ (e, [])
        (parse_or-print (end_position ts) width e i (fuel_for ts) p
          (omega (arith, length-place width i (print e or_level))))
        refl
