-- ===== src/Expr/Syntax.antt =====
-- The syntax of crates/levshell-context/src/expr.rs, and the errors of error.rs beside it.
-- A message is named by what it reports; the tokens that its text quotes are left out.
use levshell.Prelude.{ℕ, Text, Bool, Option}

pub data CompareOp : Type 0 where
  eq not_eq lt lt_eq gt gt_eq contains : CompareOp

pub data Literal (N : Type 0) : Type 0 where
  bool : Bool → Literal N
  number : N → Literal N
  string : Text → Literal N

pub data Term (N : Type 0) : Type 0 where
  signal : Text → Term N
  literal : Literal N → Term N

pub data Expression (N : Type 0) : Type 0 where
  and : Expression N → Expression N → Expression N
  or : Expression N → Expression N → Expression N
  not : Expression N → Expression N
  compare : Term N → CompareOp → Term N → Expression N
  truthy : Term N → Expression N

pub data Message : Type 0 where
  unexpected_character : ℕ → Message
  unterminated_string : Message
  invalid_number : Text → Message
  unexpected_after_expression : Message
  expected_rparen : Message
  needs_comparison : Message
  expected_identifier : Message
  unexpected_in_term : Message
  unexpected_end : Message
  non_boolean_literal : Message
  non_boolean_signal : Text → Text → Message
  left_not_number : CompareOp → Text → Message
  right_not_number : CompareOp → Text → Message
  bad_contains : Text → Text → Message

pub data ContextError : Type 0 where
  parse : Message → ℕ → ContextError
  eval : Message → ContextError
  unknown_signal : Text → ContextError

-- `exhausted` is no result of the program: the model's recursion bound was too small.
pub data Result {ℓ} (A : Type ℓ) : Type ℓ where
  ok : A → Result A
  err : ContextError → Result A
  exhausted : Result A

infixl 5 ◌>>=◌
abbrev pub ◌>>=◌ {ℓ κ} : {A : Type ℓ} {B : Type κ} → Result A → (A → Result B) → Result B
ok a >>= f = f a
err e >>= f = err e
exhausted >>= f = exhausted

-- What the rule language takes from f64: its comparisons, and `str::parse`.
pub record Numbers (N : Type 0) : Type 0 where
  pub num_eq : N → N → Bool
  pub num_lt : N → N → Bool
  pub num_le : N → N → Bool
  pub parse_f64 : Text → Option N
