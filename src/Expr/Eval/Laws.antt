-- ===== src/Expr/Eval/Laws.antt =====
-- Laws of the evaluator of crates/levshell-context/src/expr.rs, errors included.
use levshell.Prelude.{◌≡◌, refl, Bool, true, false, not as negate}
use levshell.Signals.{SignalContext}
use levshell.Expr.Syntax.{Expression, Result, ok, err, exhausted, ◌>>=◌, Numbers}
use levshell.Expr.Eval.{evaluate}

not_and-result :
    (ra rb : Result Bool)
    → ((ra >>= λ x. elim x [ true ↦ rb | false ↦ ok false ]) >>= λ x. ok (negate x)) ≡ (
        (ra >>= λ x. ok (negate x)) >>= λ x. elim x [
          | true ↦ ok true
          | false ↦ (rb >>= λ y. ok (negate y))
        ])
not_and-result (ok true) rb = refl
not_and-result (ok false) rb = refl
not_and-result (err e) rb = refl
not_and-result exhausted rb = refl

not_or-result :
    (ra rb : Result Bool)
    → ((ra >>= λ x. elim x [ true ↦ ok true | false ↦ rb ]) >>= λ x. ok (negate x)) ≡ (
        (ra >>= λ x. ok (negate x)) >>= λ x. elim x [
          | true ↦ (rb >>= λ y. ok (negate y))
          | false ↦ ok false
        ])
not_or-result (ok true) rb = refl
not_or-result (ok false) rb = refl
not_or-result (err e) rb = refl
not_or-result exhausted rb = refl

and_assoc-result :
    (ra rb rc : Result Bool)
    → ((ra >>= λ x. elim x [ true ↦ rb | false ↦ ok false ]) >>= λ x. elim x [
      | true ↦ rc
      | false ↦ ok false
    ])
      ≡ (ra >>= λ x. elim x [
        | true ↦ (rb >>= λ y. elim y [ true ↦ rc | false ↦ ok false ])
        | false ↦ ok false
      ])
and_assoc-result (ok true) rb rc = refl
and_assoc-result (ok false) rb rc = refl
and_assoc-result (err e) rb rc = refl
and_assoc-result exhausted rb rc = refl

module _ {N : Type 0} (num : Numbers N) (ctx : SignalContext N) where
  -- De Morgan's laws hold of evaluation with its errors and its short circuit: the two sides give
  -- the same value, or fail with the same error. And `and` associates, in the same sense.
  pub evaluate_laws :
      (a b c : Expression N)
      → (evaluate num (Expression.not (Expression.and a b)) ctx
          ≡ evaluate num (Expression.or (Expression.not a) (Expression.not b)) ctx)
        × (evaluate num (Expression.not (Expression.or a b)) ctx
            ≡ evaluate num (Expression.and (Expression.not a) (Expression.not b)) ctx)
        × (evaluate num (Expression.and (Expression.and a b) c) ctx
            ≡ evaluate num (Expression.and a (Expression.and b c)) ctx)
  unfolding evaluate
  evaluate_laws a b c = (
    not_and-result (evaluate num a ctx) (evaluate num b ctx),
    not_or-result (evaluate num a ctx) (evaluate num b ctx),
    and_assoc-result (evaluate num a ctx) (evaluate num b ctx) (evaluate num c ctx),
  )
