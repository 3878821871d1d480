-- ===== src/Expr/Eval.antt =====
-- The evaluator of crates/levshell-context/src/expr.rs, over the signals of signals.rs.
pub mod Typing
pub mod Laws
use levshell.Prelude.{
  Text, bytes, text_eq, lookup, Bool, true, false, ◌&&◌, not as negate, Option, none, some, List,
  [], ◌∷◌, any_of, if◌then◌else◌, ◌==◌,
}
use levshell.Signals.{SignalValue, SignalContext, as_number, type_name, get}
use levshell.Expr.Syntax.{
  CompareOp, Term, signal, literal, Literal, Expression, compare, truthy, non_boolean_literal,
  non_boolean_signal, left_not_number, right_not_number, bad_contains, ContextError, eval, Result,
  ok, err, exhausted, ◌>>=◌, Numbers,
}

-- `Vec<String>: PartialEq`.
unfoldable pub list_eq : List Text → List Text → Bool
list_eq [] [] = true
list_eq [] (t ∷ ts) = false
list_eq (s ∷ ss) [] = false
list_eq (s ∷ ss) (t ∷ ts) = text_eq s t && list_eq ss ts

unfoldable pub is_prefix : Text → Text → Bool
is_prefix [] t = true
is_prefix (c ∷ s) [] = false
is_prefix (c ∷ s) (d ∷ t) = if c == d then is_prefix s t else false

-- `text.contains(s)`.
unfoldable pub str_contains : Text → Text → Bool
unfolding is_prefix
str_contains [] s = is_prefix s []
str_contains (c ∷ text) s = if is_prefix s (c ∷ text) then true else str_contains text s

abbrev pub ok_or {ℓ} : {A : Type ℓ} → Option A → ContextError → Result A
ok_or none e = err e
ok_or (some a) e = ok a

module _ {N : Type 0} (num : Numbers N) where
  open num use {num_eq, num_lt, num_le}

  unfoldable pub signal_eq : SignalValue N → SignalValue N → Bool
  signal_eq (SignalValue.bool true) (SignalValue.bool y) = y
  signal_eq (SignalValue.bool false) (SignalValue.bool y) = negate y
  signal_eq (SignalValue.number x) (SignalValue.number y) = num_eq x y
  signal_eq (SignalValue.string x) (SignalValue.string y) = text_eq x y
  signal_eq (SignalValue.string_list x) (SignalValue.string_list y) = list_eq x y
  signal_eq _ _ = false

  unfoldable pub eval_contains : SignalValue N → SignalValue N → Result Bool
  eval_contains (SignalValue.string_list list) (SignalValue.string s) =
      ok (any_of (λ item. text_eq item s) list)
  eval_contains (SignalValue.string text) (SignalValue.string s) = ok (str_contains text s)
  eval_contains l r = err (eval (bad_contains (type_name l) (type_name r)))

  unfoldable pub resolve_term : Term N → SignalContext N → Option (SignalValue N)
  resolve_term (literal (Literal.bool b)) ctx = some (SignalValue.bool b)
  resolve_term (literal (Literal.number n)) ctx = some (SignalValue.number n)
  resolve_term (literal (Literal.string s)) ctx = some (SignalValue.string s)
  resolve_term (signal name) ctx = get ctx name

  -- `<`, `<=`, `>` and `>=`, both sides of which must be numbers.
  unfoldable pub eval_order :
      CompareOp → (N → N → Bool) → SignalValue N → SignalValue N → Result Bool
  eval_order op test l r = do
    a ← ok_or (as_number l) (eval (left_not_number op (type_name l)))
    b ← ok_or (as_number r) (eval (right_not_number op (type_name r)))
    ok (test a b)

  -- The `match op` of `eval_compare`, on two values.
  unfoldable pub compare_values : CompareOp → SignalValue N → SignalValue N → Result Bool
  compare_values CompareOp.eq l r = ok (signal_eq l r)
  compare_values CompareOp.not_eq l r = ok (negate (signal_eq l r))
  compare_values CompareOp.lt l r = eval_order CompareOp.lt num_lt l r
  compare_values CompareOp.lt_eq l r = eval_order CompareOp.lt_eq num_le l r
  compare_values CompareOp.gt l r = eval_order CompareOp.gt (λ a b. num_lt b a) l r
  compare_values CompareOp.gt_eq l r = eval_order CompareOp.gt_eq (λ a b. num_le b a) l r
  compare_values CompareOp.contains l r = eval_contains l r

  -- A missing signal makes every comparison false.
  abbrev pub with_both :
      Option (SignalValue N)
      → Option (SignalValue N)
      → (SignalValue N → SignalValue N → Result Bool)
      → Result Bool
  with_both none r k = ok false
  with_both (some l) none k = ok false
  with_both (some l) (some r) k = k l r

  unfoldable pub eval_compare : CompareOp → Term N → Term N → SignalContext N → Result Bool
  eval_compare op lhs rhs ctx =
      with_both (resolve_term lhs ctx) (resolve_term rhs ctx) (compare_values op)

  -- What a signal is worth in boolean position; a missing one is false.
  unfoldable pub truth_of : Text → Option (SignalValue N) → Result Bool
  truth_of name none = ok false
  truth_of name (some (SignalValue.bool b)) = ok b
  truth_of name (some other) = err (eval (non_boolean_signal name (type_name other)))

  unfoldable pub eval_truthy : Term N → SignalContext N → Result Bool
  eval_truthy (literal (Literal.bool b)) ctx = ok b
  eval_truthy (literal other) ctx = err (eval non_boolean_literal)
  eval_truthy (signal name) ctx = truth_of name (get ctx name)

  -- `a? && b?` evaluates `b` only if `a` is true, and `a? || b?` only if `a` is false.
  unfoldable pub evaluate : Expression N → SignalContext N → Result Bool
  evaluate (Expression.and a b) ctx =
      evaluate a ctx >>= λ x. elim x [ true ↦ evaluate b ctx | false ↦ ok false ]
  evaluate (Expression.or a b) ctx =
      evaluate a ctx >>= λ x. elim x [ true ↦ ok true | false ↦ evaluate b ctx ]
  evaluate (Expression.not inner) ctx = evaluate inner ctx >>= λ x. ok (negate x)
  evaluate (truthy term) ctx = eval_truthy term ctx
  evaluate (compare lhs op rhs) ctx = eval_compare op lhs rhs ctx
