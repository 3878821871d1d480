-- ===== src/Rules.antt =====
-- crates/levshell-context/src/rules.rs: widgets, compiled rules and context profiles.
use levshell.Prelude.{ℕ, Text, Assoc, Bool, true, false, Option, none, [], ltb, ◌==◌, insert}
use levshell.Prominence.{Prominence, visible}
use levshell.Signals.{SignalContext}
use levshell.Expr.Syntax.{Expression, Result, ok, err, exhausted, Numbers}
use levshell.Expr.Eval.{evaluate as evaluate_expr}

-- An i32, by its value; `negsuc n` is -(n + 1).
pub data ℤ : Type 0 where
  pos : ℕ → ℤ
  negsuc : ℕ → ℤ

-- `a < b` and `a == b`.
abbrev pub lt_ℤ : ℤ → ℤ → Bool
lt_ℤ (pos a) (pos b) = ltb a b
lt_ℤ (pos a) (negsuc b) = false
lt_ℤ (negsuc a) (pos b) = true
lt_ℤ (negsuc a) (negsuc b) = ltb b a

abbrev pub eq_ℤ : ℤ → ℤ → Bool
eq_ℤ (pos a) (pos b) = a == b
eq_ℤ (pos a) (negsuc b) = false
eq_ℤ (negsuc a) (pos b) = false
eq_ℤ (negsuc a) (negsuc b) = a == b

pub data Zone : Type 0 where
  left center right : Zone

pub record WidgetDef : Type 0 where
  pub id : Text
  pub widget_type : Text
  pub default_prominence : Prominence
  pub priority : ℤ
  pub zone : Zone

unfoldable pub new_widget : Text → Text → WidgetDef
new_widget id widget_type = record {
  id = id;
  widget_type = widget_type;
  default_prominence = visible;
  priority = pos 0;
  zone = right;
}

pub record CompiledRule (N : Type 0) : Type 0 where
  pub target : Text
  pub when : Expression N
  pub prominence : Prominence
  pub activation_delay : Option ℕ
  pub deactivation_delay : Option ℕ
  pub source : Text

-- An evaluation error counts as false.
abbrev pub unwrap_or_false : Result Bool → Bool
unwrap_or_false (ok b) = b
unwrap_or_false (err e) = false
unwrap_or_false exhausted = false

unfoldable pub evaluate : {N : Type 0} → Numbers N → CompiledRule N → SignalContext N → Bool
evaluate num rule ctx = unwrap_or_false (evaluate_expr num rule.when ctx)

pub record AutoTrigger (N : Type 0) : Type 0 where
  pub when : Expression N
  pub dwell : ℕ
  pub exit_dwell : ℕ

pub record Profile (N : Type 0) : Type 0 where
  pub name : Text
  pub overrides : Assoc Prominence
  pub suppress_notifications : Bool
  pub auto_trigger : Option (AutoTrigger N)

unfoldable pub new_profile : {N : Type 0} → Text → Profile N
new_profile name = record {
  name = name;
  overrides = [];
  suppress_notifications = false;
  auto_trigger = none;
}

unfoldable pub with_override : {N : Type 0} → Text → Prominence → Profile N → Profile N
with_override widget prominence profile = record profile {
  overrides = insert widget prominence profile.overrides;
}
