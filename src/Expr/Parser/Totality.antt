-- ===== src/Expr/Parser/Totality.antt =====
-- The recursion bound of the parser of crates/levshell-context/src/expr.rs, and the positions of its
-- errors.
use levshell.Prelude.{
  ℕ, zero, suc, ◌+◌, ◌*◌, ◌≤◌, ◌<◌, ◌≡◌, refl, inl, inr, Text, Bool, true, false, Option, none,
  some, [], ◌∷◌, ◌++◌, length, arith, Bool-cases,
}
use levshell.Expr.Syntax.{
  Term, Expression, compare, parse, eval, unknown_signal, ContextError, ok, err, exhausted, ◌>>=◌,
}
use levshell.Expr.Lexer.{Token}
use levshell.Expr.Parser.{
  Tokens, Parsed, peek, advance, is_or, is_and, is_not, is_lparen, compare_op, path_loop,
  parse_term, bare_term, parse_comparison, close_paren, parse_or, or_loop, parse_and, and_loop,
  parse_unary, parse_atom, peek_position,
}

-- No token stands behind `bound`.
abbrev pub Within : {N : Type 0} → ℕ → Tokens N → Type 0
Within bound [] = Unit
Within bound (t ∷ ts) = (t.position ≤ bound) × Within bound ts

abbrev pub ErrorWithin : ℕ → ContextError → Type 0
ErrorWithin bound (parse m p) = p ≤ bound
ErrorWithin bound (eval m) = ⊥
ErrorWithin bound (unknown_signal s) = ⊥

-- A result other than `exhausted`. On success fewer than `n` tokens are left, and a failure is a
-- parse error at `bound` or before it.
abbrev pub Leaves : {N A : Type 0} → ℕ → ℕ → Parsed N A → Type 0
Leaves bound n (ok (a, rest)) = (length rest < n) × Within bound rest
Leaves bound n (err e) = ErrorWithin bound e
Leaves bound n exhausted = ⊥

bind-Leaves :
    {N A B : Type 0} (bound m n : ℕ) (p : Parsed N A) (k : A × Tokens N → Parsed N B)
    → Leaves bound m p
    → ((a : A) (rest : Tokens N)
        → length rest < m
        → Within bound rest
        → Leaves bound n (k (a, rest)))
    → Leaves bound n (p >>= k)
bind-Leaves bound m n (ok (a, rest)) k h next = next a rest h.0 h.1
bind-Leaves bound m n (err e) k h next = h
bind-Leaves bound m n exhausted k h next = absurd h

length-advance : {N : Type 0} (ts : Tokens N) → length (advance ts) ≤ length ts
length-advance [] = omega arith
length-advance (t ∷ ts) = omega arith

advance-Within :
    {N : Type 0} (bound : ℕ) (ts : Tokens N) → Within bound ts → Within bound (advance ts)
advance-Within bound [] w = tt
advance-Within bound (t ∷ ts) w = w.1

-- A token that passes a test is there, so stepping over it shortens the list.
advance-lt :
    {N : Type 0} (test : Option (Token N) → Bool) (ts : Tokens N)
    → test none ≡ false
    → test (peek ts) ≡ true
    → length (advance ts) < length ts
advance-lt test [] none_fails h = cc
advance-lt test (t ∷ ts) none_fails h = omega arith

module _ {N : Type 0} (finish bound : ℕ) (inside : finish ≤ bound) where
  peek_position-le : (ts : Tokens N) → Within bound ts → peek_position finish ts ≤ bound
  peek_position-le [] w = inside
  peek_position-le (t ∷ ts) w = w.0

  path_loop-Leaves :
      (path : Text) (ts : Tokens N)
      → Within bound ts
      → Leaves bound (suc (length ts)) (path_loop finish path ts)
  unfolding path_loop
  path_loop-Leaves path [] w = omega arith
  path_loop-Leaves path (t ∷ []) w = ground arith
  path_loop-Leaves path (t ∷ u ∷ ts) w =
      elim u.token
          as (λ k.
            u.token ≡ k
            → Leaves bound (suc (suc (suc (length ts)))) (path_loop finish path (t ∷ u ∷ ts))) [
              | Token.ident next ↦ λ e.
                  let rest = path_loop-Leaves (path ++ 46 ∷ next) ts w.1.1 in
                  ground (arith, weaken (path_loop finish (path ++ 46 ∷ next) ts) rest)
              | _ ↦ λ e. ground (arith, peek_position-le ts)
            ]
        refl
    where
      weaken :
          (r : Parsed N Text)
          → Leaves bound (suc (length ts)) r
          → Leaves bound (suc (suc (suc (length ts)))) r
      weaken (ok (a, rest)) h = (omega arith, h.1)
      weaken (err e) h = h
      weaken exhausted h = h

  parse_term-Leaves :
      (ts : Tokens N) → Within bound ts → Leaves bound (length ts) (parse_term finish ts)
  unfolding parse_term
  parse_term-Leaves [] w = inside
  parse_term-Leaves (t ∷ ts) w =
      elim t.token
          as (λ k. t.token ≡ k → Leaves bound (suc (length ts)) (parse_term finish (t ∷ ts))) [
            | Token.ident first ↦ λ e.
                rw (e, parse_term)
                  (bind-Leaves bound (suc (length ts)) (suc (length ts)) (path_loop finish first ts)
                    _ (path_loop-Leaves first ts w.1) (λ path rest h v. (h, v)))
            | _ ↦ λ e. ground arith
          ]
        refl

  bare_term-Leaves :
      (n at : ℕ) (lhs : Term N) (ts : Tokens N)
      → at ≤ bound
      → length ts < n
      → Within bound ts
      → Leaves bound n (bare_term finish at lhs >>= λ e. ok (e, ts))
  unfolding bare_term
  bare_term-Leaves n at lhs ts p h w = ground arith

  parse_comparison-Leaves :
      (ts : Tokens N) → Within bound ts → Leaves bound (length ts) (parse_comparison finish ts)
  unfolding parse_comparison
  parse_comparison-Leaves ts w =
      bind-Leaves bound (length ts) (length ts) (parse_term finish ts) _ (parse_term-Leaves ts w)
        λ lhs rest h v.
          elim (compare_op (peek rest))
            as (λ o.
              Leaves {A = Expression N} bound (length ts)
                (elim o as (λ x. Parsed N (Expression N)) [
                  | none ↦ bare_term finish (peek_position finish ts) lhs >>= λ e. ok (e, rest)
                  | some op ↦ parse_term finish (advance rest) >>= λ x. ok (compare lhs op x.0, x.1)
                ])) [
                  | none ↦
                      bare_term-Leaves (length ts) (peek_position finish ts) lhs rest
                        (peek_position-le ts w) h v
                  | some op ↦
                      bind-Leaves bound (length (advance rest)) (length ts)
                        (parse_term finish (advance rest)) _
                        (parse_term-Leaves (advance rest) (advance-Within bound rest v))
                        (λ rhs left less u. (omega (arith, length-advance rest), u))
                ]

  close_paren-Leaves :
      (n : ℕ) (inner : Expression N) (ts : Tokens N)
      → length ts < n
      → Within bound ts
      → Leaves bound n (close_paren finish inner ts)
  unfolding close_paren
  close_paren-Leaves n inner [] h w = ground arith
  close_paren-Leaves n inner (t ∷ ts) h w = ground (arith, peek_position-le ts)

  mutual
    unfolding parse_or

    parse_or-Leaves :
        (f : ℕ) (ts : Tokens N)
        → Within bound ts
        → 6 * length ts + 4 ≤ f
        → Leaves bound (length ts) (parse_or finish f ts)
    parse_or-Leaves zero ts w h = absurd (omega arith)
    parse_or-Leaves (suc f) ts w h =
        bind-Leaves bound (length ts) (length ts) (parse_and finish f ts) _
          (parse_and-Leaves f ts w (omega arith))
          (λ lhs rest less v. or_loop-Leaves f (length ts) lhs rest v less (omega arith))

    or_loop-Leaves :
        (f n : ℕ) (lhs : Expression N) (ts : Tokens N)
        → Within bound ts
        → length ts < n
        → 6 * length ts + 4 ≤ f
        → Leaves bound n (or_loop finish f lhs ts)
    or_loop-Leaves zero n lhs ts w less h = absurd (omega arith)
    or_loop-Leaves (suc f) n lhs ts w less h = elim (Bool-cases (is_or (peek ts))) [
      | inl more ↦
          let shorter = advance-lt is_or ts refl more in
          rw (more, or_loop)
            (bind-Leaves bound (length (advance ts)) n (parse_and finish f (advance ts)) _
              (parse_and-Leaves f (advance ts) (advance-Within bound ts w) (omega arith))
              (λ rhs rest left v.
                or_loop-Leaves f n (Expression.or lhs rhs) rest v (omega arith) (omega arith)))
      | inr done ↦ rw (done, or_loop) (less, w)
    ]

    parse_and-Leaves :
        (f : ℕ) (ts : Tokens N)
        → Within bound ts
        → 6 * length ts + 3 ≤ f
        → Leaves bound (length ts) (parse_and finish f ts)
    parse_and-Leaves zero ts w h = absurd (omega arith)
    parse_and-Leaves (suc f) ts w h =
        bind-Leaves bound (length ts) (length ts) (parse_unary finish f ts) _
          (parse_unary-Leaves f ts w (omega arith))
          (λ lhs rest less v. and_loop-Leaves f (length ts) lhs rest v less (omega arith))

    and_loop-Leaves :
        (f n : ℕ) (lhs : Expression N) (ts : Tokens N)
        → Within bound ts
        → length ts < n
        → 6 * length ts + 3 ≤ f
        → Leaves bound n (and_loop finish f lhs ts)
    and_loop-Leaves zero n lhs ts w less h = absurd (omega arith)
    and_loop-Leaves (suc f) n lhs ts w less h = elim (Bool-cases (is_and (peek ts))) [
      | inl more ↦
          let shorter = advance-lt is_and ts refl more in
          rw (more, and_loop)
            (bind-Leaves bound (length (advance ts)) n (parse_unary finish f (advance ts)) _
              (parse_unary-Leaves f (advance ts) (advance-Within bound ts w) (omega arith))
              (λ rhs rest left v.
                and_loop-Leaves f n (Expression.and lhs rhs) rest v (omega arith) (omega arith)))
      | inr done ↦ rw (done, and_loop) (less, w)
    ]

    parse_unary-Leaves :
        (f : ℕ) (ts : Tokens N)
        → Within bound ts
        → 6 * length ts + 2 ≤ f
        → Leaves bound (length ts) (parse_unary finish f ts)
    parse_unary-Leaves zero ts w h = absurd (omega arith)
    parse_unary-Leaves (suc f) ts w h = elim (Bool-cases (is_not (peek ts))) [
      | inl more ↦
          let shorter = advance-lt is_not ts refl more in
          rw (more, parse_unary)
            (bind-Leaves bound (length (advance ts)) (length ts) (parse_unary finish f (advance ts))
              _ (parse_unary-Leaves f (advance ts) (advance-Within bound ts w) (omega arith))
              (λ inner rest left v. (omega arith, v)))
      | inr done ↦ rw (done, parse_unary) (parse_atom-Leaves f ts w (omega arith))
    ]

    parse_atom-Leaves :
        (f : ℕ) (ts : Tokens N)
        → Within bound ts
        → 6 * length ts + 1 ≤ f
        → Leaves bound (length ts) (parse_atom finish f ts)
    parse_atom-Leaves zero ts w h = absurd (omega arith)
    parse_atom-Leaves (suc f) ts w h = elim (Bool-cases (is_lparen (peek ts))) [
      | inl more ↦
          let shorter = advance-lt is_lparen ts refl more in
          rw (more, parse_atom)
            (bind-Leaves bound (length (advance ts)) (length ts) (parse_or finish f (advance ts)) _
              (parse_or-Leaves f (advance ts) (advance-Within bound ts w) (omega arith))
              (λ inner rest left v. close_paren-Leaves (length ts) inner rest (omega arith) v))
      | inr done ↦ rw (done, parse_atom) (parse_comparison-Leaves ts w)
    ]

  pub parse_or-returns :
      (f : ℕ) (ts : Tokens N)
      → Within bound ts
      → 6 * length ts + 4 ≤ f
      → Leaves bound (length ts) (parse_or finish f ts)
  parse_or-returns f ts w h = parse_or-Leaves f ts w h
