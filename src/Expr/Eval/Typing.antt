-- ===== src/Expr/Eval/Typing.antt =====
-- A type discipline for the rules of crates/levshell-context/src/expr.rs. The program has none: it
-- finds a mismatch when the rule is evaluated.
use levshell.Prelude.{
  ◌≡◌, refl, ◌∙◌, inl, inr, Text, Bool, true, false, ◌&&◌, not as negate, Option, none, some, arith,
  Option-cases,
}
use levshell.Signals.{SignalValue, SignalContext, as_number, get}
use levshell.Expr.Syntax.{
  CompareOp, Term, signal, literal, Literal, Expression, compare, truthy, Result, ok, ◌>>=◌,
  Numbers,
}
use levshell.Expr.Eval.{
  eval_contains, eval_order, compare_values, resolve_term, eval_compare, truth_of, eval_truthy,
  evaluate,
}

pub data SignalType : Type 0 where
  bool number string string_list : SignalType

abbrev pub type_of : {N : Type 0} → SignalValue N → SignalType
type_of (SignalValue.bool b) = bool
type_of (SignalValue.number n) = number
type_of (SignalValue.string s) = string
type_of (SignalValue.string_list v) = string_list

-- The signals that are set have their declared types.
abbrev pub Conforms : {N : Type 0} → (Text → SignalType) → SignalContext N → Type 0
Conforms {N} sig ctx =
    (name : Text) (v : SignalValue N) → get ctx name ≡ some v → type_of v ≡ sig name

abbrev pub term_type : {N : Type 0} → (Text → SignalType) → Term N → SignalType
term_type sig (signal name) = sig name
term_type sig (literal (Literal.bool b)) = bool
term_type sig (literal (Literal.number n)) = number
term_type sig (literal (Literal.string s)) = string

abbrev pub both_numbers : SignalType → SignalType → Bool
both_numbers number number = true
both_numbers _ _ = false

abbrev pub can_contain : SignalType → SignalType → Bool
can_contain string_list string = true
can_contain string string = true
can_contain _ _ = false

abbrev pub accepts : CompareOp → SignalType → SignalType → Bool
accepts CompareOp.eq l r = true
accepts CompareOp.not_eq l r = true
accepts CompareOp.contains l r = can_contain l r
accepts _ l r = both_numbers l r

abbrev pub is_bool : SignalType → Bool
is_bool bool = true
is_bool _ = false

abbrev pub well_typed : {N : Type 0} → (Text → SignalType) → Expression N → Bool
well_typed sig (Expression.and a b) = well_typed sig a && well_typed sig b
well_typed sig (Expression.or a b) = well_typed sig a && well_typed sig b
well_typed sig (Expression.not a) = well_typed sig a
well_typed sig (truthy t) = is_bool (term_type sig t)
well_typed sig (compare l op r) = accepts op (term_type sig l) (term_type sig r)

abbrev pub Succeeds : Result Bool → Type 0
Succeeds r = (b : Bool) × (r ≡ ok b)

and_then :
    (ra rb : Result Bool)
    → Succeeds ra
    → Succeeds rb
    → Succeeds (ra >>= λ x. elim x [ true ↦ rb | false ↦ ok false ])
and_then ra rb (true, p) s = rw p s
and_then ra rb (false, p) s = rw p (false, refl)

or_else :
    (ra rb : Result Bool)
    → Succeeds ra
    → Succeeds rb
    → Succeeds (ra >>= λ x. elim x [ true ↦ ok true | false ↦ rb ])
or_else ra rb (true, p) s = rw p (true, refl)
or_else ra rb (false, p) s = rw p s

is_bool→bool : (t : SignalType) → is_bool t ≡ true → t ≡ bool
is_bool→bool bool h = refl
is_bool→bool number h = cc
is_bool→bool string h = cc
is_bool→bool string_list h = cc

both : (a b : Bool) → a && b ≡ true → (a ≡ true) × (b ≡ true)
both a b h = ground arith

module _ {N : Type 0} (num : Numbers N) where
  eval_order-Succeeds :
      (op : CompareOp) (test : N → N → Bool) (l r : SignalValue N)
      → both_numbers (type_of l) (type_of r) ≡ true
      → Succeeds (eval_order num op test l r)
  unfolding eval_order as_number
  eval_order-Succeeds op test (SignalValue.number a) (SignalValue.number b) h = (test a b, refl)
  eval_order-Succeeds op test (SignalValue.number a) (SignalValue.bool b) h = cc
  eval_order-Succeeds op test (SignalValue.number a) (SignalValue.string b) h = cc
  eval_order-Succeeds op test (SignalValue.number a) (SignalValue.string_list b) h = cc
  eval_order-Succeeds op test (SignalValue.bool a) r h = cc
  eval_order-Succeeds op test (SignalValue.string a) r h = cc
  eval_order-Succeeds op test (SignalValue.string_list a) r h = cc

  eval_contains-Succeeds :
      (l r : SignalValue N)
      → can_contain (type_of l) (type_of r) ≡ true
      → Succeeds (eval_contains num l r)
  unfolding eval_contains
  eval_contains-Succeeds (SignalValue.string_list a) (SignalValue.string b) h = (_, refl)
  eval_contains-Succeeds (SignalValue.string_list a) (SignalValue.bool b) h = cc
  eval_contains-Succeeds (SignalValue.string_list a) (SignalValue.number b) h = cc
  eval_contains-Succeeds (SignalValue.string_list a) (SignalValue.string_list b) h = cc
  eval_contains-Succeeds (SignalValue.string a) (SignalValue.string b) h = (_, refl)
  eval_contains-Succeeds (SignalValue.string a) (SignalValue.bool b) h = cc
  eval_contains-Succeeds (SignalValue.string a) (SignalValue.number b) h = cc
  eval_contains-Succeeds (SignalValue.string a) (SignalValue.string_list b) h = cc
  eval_contains-Succeeds (SignalValue.bool a) r h = cc
  eval_contains-Succeeds (SignalValue.number a) r h = cc

  compare_values-Succeeds :
      (op : CompareOp) (l r : SignalValue N)
      → accepts op (type_of l) (type_of r) ≡ true
      → Succeeds (compare_values num op l r)
  unfolding compare_values
  compare_values-Succeeds CompareOp.eq l r h = (_, refl)
  compare_values-Succeeds CompareOp.not_eq l r h = (_, refl)
  compare_values-Succeeds CompareOp.lt l r h = eval_order-Succeeds _ _ l r h
  compare_values-Succeeds CompareOp.lt_eq l r h = eval_order-Succeeds _ _ l r h
  compare_values-Succeeds CompareOp.gt l r h = eval_order-Succeeds _ _ l r h
  compare_values-Succeeds CompareOp.gt_eq l r h = eval_order-Succeeds _ _ l r h
  compare_values-Succeeds CompareOp.contains l r h = eval_contains-Succeeds l r h

  resolve_term-type :
      (sig : Text → SignalType) (ctx : SignalContext N) (t : Term N) (v : SignalValue N)
      → Conforms sig ctx
      → resolve_term num t ctx ≡ some v
      → type_of v ≡ term_type sig t
  unfolding resolve_term
  resolve_term-type sig ctx (signal name) v c e = c name v e
  resolve_term-type sig ctx (literal (Literal.bool b)) v c e = ground arith
  resolve_term-type sig ctx (literal (Literal.number b)) v c e = ground arith
  resolve_term-type sig ctx (literal (Literal.string b)) v c e = ground arith

  eval_compare-Succeeds :
      (sig : Text → SignalType) (ctx : SignalContext N) (op : CompareOp) (l r : Term N)
      → Conforms sig ctx
      → accepts op (term_type sig l) (term_type sig r) ≡ true
      → Succeeds (eval_compare num op l r ctx)
  unfolding eval_compare
  eval_compare-Succeeds sig ctx op l r c h = elim (Option-cases (resolve_term num l ctx)) [
    | inl e ↦ rw e (false, refl)
    | inr (v, e) ↦ elim (Option-cases (resolve_term num r ctx)) [
      | inl d ↦ rw (e, d) (false, refl)
      | inr (w, d) ↦
          rw (e, d)
            (compare_values-Succeeds op v w
              (rw (resolve_term-type sig ctx l v c e, resolve_term-type sig ctx r w c d) h))
    ]
  ]

  truth_of-Succeeds :
      (name : Text) (o : Option (SignalValue N))
      → ((v : SignalValue N) → o ≡ some v → type_of v ≡ bool)
      → Succeeds (truth_of num name o)
  unfolding truth_of
  truth_of-Succeeds name none h = (false, refl)
  truth_of-Succeeds name (some (SignalValue.bool b)) h = (b, refl)
  truth_of-Succeeds name (some (SignalValue.number n)) h = cc (h _ refl)
  truth_of-Succeeds name (some (SignalValue.string s)) h = cc (h _ refl)
  truth_of-Succeeds name (some (SignalValue.string_list l)) h = cc (h _ refl)

  -- A rule that is well typed for the declared signals evaluates without an error in every context
  -- whose signals, as far as they are set, have the declared types.
  pub evaluate-Succeeds :
      (sig : Text → SignalType) (ctx : SignalContext N) (e : Expression N)
      → Conforms sig ctx
      → well_typed sig e ≡ true
      → Succeeds (evaluate num e ctx)
  unfolding evaluate eval_truthy
  evaluate-Succeeds sig ctx (Expression.and a b) c h =
      let (ha, hb) = both (well_typed sig a) (well_typed sig b) h in
      and_then (evaluate num a ctx) (evaluate num b ctx) (evaluate-Succeeds sig ctx a c ha)
        (evaluate-Succeeds sig ctx b c hb)
  evaluate-Succeeds sig ctx (Expression.or a b) c h =
      let (ha, hb) = both (well_typed sig a) (well_typed sig b) h in
      or_else (evaluate num a ctx) (evaluate num b ctx) (evaluate-Succeeds sig ctx a c ha)
        (evaluate-Succeeds sig ctx b c hb)
  evaluate-Succeeds sig ctx (Expression.not a) c h =
      let (x, p) = evaluate-Succeeds sig ctx a c h in (negate x, rw p)
  evaluate-Succeeds sig ctx (truthy (signal name)) c h =
      truth_of-Succeeds name (get ctx name) (λ v e. c name v e ∙ is_bool→bool (sig name) h)
  evaluate-Succeeds sig ctx (truthy (literal (Literal.bool b))) c h = (b, refl)
  evaluate-Succeeds sig ctx (truthy (literal (Literal.number n))) c h = cc
  evaluate-Succeeds sig ctx (truthy (literal (Literal.string t))) c h = cc
  evaluate-Succeeds sig ctx (compare l op r) c h = eval_compare-Succeeds sig ctx op l r c h
