-- ===== src/Expr/Print/RoundTrip/Terms.antt =====
-- Printed terms and comparisons, before the parser of crates/levshell-context/src/expr.rs.
use mathlib.Core.List.{append_assoc}
use levshell.Prelude.{
  ℕ, ◌+◌, ◌≡◌, refl, ap, Text, Bool, true, false, Option, none, some, List, [], ◌∷◌, ◌++◌, arith,
}
use levshell.Expr.Syntax.{
  CompareOp, Term, signal, literal, Literal, compare, truthy, Result, ok, ◌>>=◌,
}
use levshell.Expr.Lexer.{Token}
use levshell.Expr.Parser.{
  Tokens, peek, is_and, compare_op, path_loop, parse_term, bare_term, parse_comparison,
}
use levshell.Expr.Print.{split_path, dotted, term_tokens, op_token, StandsAlone, place, place_end}

-- How the path loop joins segments.
abbrev join_path : Text → List Text → Text
join_path p [] = p
join_path p (s ∷ ss) = join_path (p ++ 46 ∷ s) ss

join_path-append : (p q : Text) (ss : List Text) → join_path (p ++ q) ss ≡ p ++ join_path q ss
join_path-append p q [] = refl
join_path-append p q (s ∷ ss) = rw (append_assoc p q (46 ∷ s)) (join_path-append p (q ++ 46 ∷ s) ss)

join_path-split_path : (s : Text) → join_path (split_path s).0 (split_path s).1 ≡ s
unfolding split_path
join_path-split_path [] = refl
join_path-split_path (c ∷ r) =
    let (head, tail) = split_path r in
    ground (arith, join_path-split_path r, join_path-append (c ∷ []) head tail)

pub place-append :
    {N : Type 0} (width : Token N → ℕ) (i : ℕ) (xs ys : List (Token N))
    → place width i (xs ++ ys) ≡ place width i xs ++ place width (place_end width i xs) ys
place-append width i [] ys = refl
place-append width i (x ∷ xs) ys =
    ap (λ z. record { token = x; position = i } ∷ z) (place-append width (i + width x) xs ys)

pub bind_ok :
    {A B : Type 0} (p : Result A) (k : A → Result B) (a : A) {b : Result B}
    → p ≡ ok a
    → k a ≡ b
    → (p >>= k) ≡ b
bind_ok p k a e h = rw e h

abbrev pub is_dot : {N : Type 0} → Option (Token N) → Bool
is_dot (some Token.dot) = true
is_dot _ = false

-- What may follow a term, and what may follow an operand of `and`.
abbrev pub EndsTerm : {N : Type 0} → Tokens N → Type 0
EndsTerm rest = (is_dot (peek rest) ≡ false) × (compare_op (peek rest) ≡ none)

abbrev pub EndsAnd : {N : Type 0} → Tokens N → Type 0
EndsAnd rest =
    (is_dot (peek rest) ≡ false) × (compare_op (peek rest) ≡ none) × (is_and (peek rest) ≡ false)

module _ {N : Type 0} (finish : ℕ) (width : Token N → ℕ) where
  path_loop-stop :
      (p : Text) (rest : Tokens N)
      → is_dot (peek rest) ≡ false
      → path_loop finish p rest ≡ ok (p, rest)
  unfolding path_loop
  path_loop-stop p [] h = refl
  path_loop-stop p (t ∷ []) h = ground arith
  path_loop-stop p (t ∷ u ∷ ts) h = ground arith

  path_loop-dotted :
      (p : Text) (ss : List Text) (i : ℕ) (rest : Tokens N)
      → is_dot (peek rest) ≡ false
      → path_loop finish p (place width i (dotted ss) ++ rest) ≡ ok (join_path p ss, rest)
  unfolding path_loop
  path_loop-dotted p [] i rest h = path_loop-stop p rest h
  path_loop-dotted p (s ∷ ss) i rest h = path_loop-dotted (p ++ 46 ∷ s) ss _ rest h

  parse_term-tokens :
      (t : Term N) (i : ℕ) (rest : Tokens N)
      → is_dot (peek rest) ≡ false
      → parse_term finish (place width i (term_tokens t) ++ rest) ≡ ok (t, rest)
  unfolding parse_term
  parse_term-tokens (signal name) i rest h =
      rw (
        path_loop-dotted (split_path name).0 (split_path name).1 _ rest h,
        join_path-split_path name,
      )
  parse_term-tokens (literal (Literal.number n)) i rest h = refl
  parse_term-tokens (literal (Literal.string s)) i rest h = refl
  parse_term-tokens (literal (Literal.bool b)) i rest h = refl

  compare_op-op_token : (op : CompareOp) → compare_op {N = N} (some (op_token op)) ≡ some op
  compare_op-op_token CompareOp.eq = refl
  compare_op-op_token _ = refl

  is_dot-op_token : (op : CompareOp) → is_dot {N = N} (some (op_token op)) ≡ false
  is_dot-op_token CompareOp.eq = refl
  is_dot-op_token _ = refl

  bare_term-StandsAlone :
      (t : Term N) (at : ℕ) → StandsAlone t → bare_term finish at t ≡ ok (truthy t)
  unfolding bare_term
  bare_term-StandsAlone (signal name) at h = refl
  bare_term-StandsAlone (literal (Literal.bool b)) at h = refl
  bare_term-StandsAlone (literal (Literal.number n)) at h = absurd h
  bare_term-StandsAlone (literal (Literal.string n)) at h = absurd h

  pub parse_comparison-truthy :
      (t : Term N) (i : ℕ) (rest : Tokens N)
      → StandsAlone t
      → EndsTerm rest
      → parse_comparison finish (place width i (term_tokens t) ++ rest) ≡ ok (truthy t, rest)
  unfolding parse_comparison
  parse_comparison-truthy t i rest h e =
      bind_ok (parse_term finish (place width i (term_tokens t) ++ rest)) _ (t, rest)
        (parse_term-tokens t i rest e.0)
        (rw (e.1) (bind_ok (bare_term finish _ t) _ (truthy t) (bare_term-StandsAlone t _ h) refl))

  pub parse_comparison-compare :
      (l r : Term N) (op : CompareOp) (i : ℕ) (rest : Tokens N)
      → EndsTerm rest
      → parse_comparison finish
          (place width i (term_tokens l ++ op_token op ∷ term_tokens r) ++ rest)
        ≡ ok (compare l op r, rest)
  unfolding parse_comparison
  parse_comparison-compare l r op i rest e =
      rw (place-append width i (term_tokens l) (op_token op ∷ term_tokens r), append_assoc)
        (bind_ok (parse_term finish (place width i (term_tokens l) ++ after_lhs)) _ (l, after_lhs)
          (parse_term-tokens l i after_lhs (is_dot-op_token op))
          (rw (compare_op-op_token op) (
            bind_ok (parse_term finish (place width at_rhs (term_tokens r) ++ rest)) _ (r, rest)
              (parse_term-tokens r at_rhs rest e.0) refl)))
    where
      at_rhs : ℕ
      at_rhs = place_end width i (term_tokens l) + width (op_token op)

      after_lhs : Tokens N
      after_lhs =
          place width (place_end width i (term_tokens l)) (op_token op ∷ term_tokens r) ++ rest
