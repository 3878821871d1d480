-- ===== src/ContextEngine/State.antt =====
-- The state of crates/levshell-modules/src/context_engine.rs, and how it publishes. The messages
-- offered to the shell are the output; the program logs an offer that fails and goes on. `none`
-- stands for a panic of the cascade or of the debouncer. The locks are left out.
use levshell.Prelude.{
  ℕ, Text, text_eq, Assoc, lookup, remove, Bool, false, not, ◌&&◌, Option, none, some, List, [],
  ◌∷◌, ◌++◌, if◌then◌else◌,
}
use levshell.Prominence.{Prominence, prom_eq}
use levshell.Signals.{SignalContext}
use levshell.Signals.{new as new_signals}
use levshell.Expr.Syntax.{Numbers}
use levshell.Expr.Eval.{list_eq}
use levshell.Rules.{WidgetDef, CompiledRule, Profile}
use levshell.Cascade.{CascadeInput, BarLayout, Layout, resolve_layout}
use levshell.Hysteresis.{HysteresisConfig, Hysteresis, observe}
use levshell.Hysteresis.{new as new_hysteresis}

pub record PublishedSnapshot : Type 0 where
  pub layout : BarLayout
  pub prominences : Assoc Prominence

pub record ContextEngine (N : Type 0) : Type 0 where
  pub widgets : List WidgetDef
  pub rules : List (CompiledRule N)
  pub profiles : List (Profile N)
  pub active_profile : Option Text
  pub signals : SignalContext N
  pub user_overrides : Assoc Prominence
  pub hysteresis : Hysteresis
  pub last_published : Option PublishedSnapshot
  pub available_width : ℕ
  pub inter_widget_gap : ℕ
  pub width_fn : Text → Prominence → ℕ

pub data BarDensity : Type 0 where
  full compact hidden : BarDensity

-- The messages to the shell that the module sends.
pub data Message (N : Type 0) : Type 0 where
  bar_layout : BarLayout → Message N
  widget_visibility : (widget_id : Text) → (visible : Bool) → (prominence : Prominence) → Message N
  bar_density_state : BarDensity → Message N
  ui_scale_state : N → Message N

unfoldable pub heuristic_width : Text → Prominence → ℕ
heuristic_width id Prominence.hidden = 0
heuristic_width id Prominence.badge = 16
heuristic_width id Prominence.icon_only = 32
heuristic_width id Prominence.compact = 96
heuristic_width id Prominence.visible = 160
heuristic_width id Prominence.expanded = 220

-- `HysteresisConfig::default`, in nanoseconds.
abbrev pub default_hysteresis : HysteresisConfig
default_hysteresis = record { activation_delay = 2000000000; deactivation_delay = 10000000000 }

unfoldable pub new : {N : Type 0} → ContextEngine N
new = record {
  widgets = [];
  rules = [];
  profiles = [];
  active_profile = none;
  signals = new_signals;
  user_overrides = [];
  hysteresis = new_hysteresis default_hysteresis;
  last_published = none;
  available_width = 2560;
  inter_widget_gap = 8;
  width_fn = heuristic_width;
}

-- The builders.
module _ {N : Type 0} where
  unfoldable pub with_widgets : ContextEngine N → List WidgetDef → ContextEngine N
  with_widgets e widgets = record e { widgets = widgets }

  unfoldable pub with_rules : ContextEngine N → List (CompiledRule N) → ContextEngine N
  with_rules e rules = record e { rules = rules }

  unfoldable pub with_profiles : ContextEngine N → List (Profile N) → ContextEngine N
  with_profiles e profiles = record e { profiles = profiles }

  unfoldable pub with_available_width : ContextEngine N → ℕ → ContextEngine N
  with_available_width e width = record e { available_width = width }

  unfoldable pub with_active_profile : ContextEngine N → Text → ContextEngine N
  with_active_profile e name = record e { active_profile = some name }

module _ {N : Type 0} where
  unfoldable pub find_profile : Text → List (Profile N) → Option (Profile N)
  find_profile name [] = none
  find_profile name (p ∷ ps) = if text_eq p.name name then some p else find_profile name ps

  unfoldable pub active_profile_snapshot : ContextEngine N → Option (Profile N)
  active_profile_snapshot e = elim e.active_profile [
    | none ↦ none
    | some name ↦ find_profile name e.profiles
  ]

  unfoldable pub cascade_input : ContextEngine N → CascadeInput N
  cascade_input e = record {
    widgets = e.widgets;
    signals = e.signals;
    rules = e.rules;
    active_profile = active_profile_snapshot e;
    available_width = e.available_width;
    widget_width = e.width_fn;
    user_overrides = e.user_overrides;
    inter_widget_gap = e.inter_widget_gap;
  }

-- `BarLayout: PartialEq`.
unfoldable pub layout_eq : BarLayout → BarLayout → Bool
layout_eq a b = list_eq a.left b.left && list_eq a.center b.center && list_eq a.right b.right

-- `previous == Some(prominence)`.
abbrev pub is_level : Option Prominence → Prominence → Bool
is_level none p = false
is_level (some q) p = prom_eq q p

abbrev pub previous : Option PublishedSnapshot → Assoc Prominence
previous none = []
previous (some last) = last.prominences

module _ {N : Type 0} where
  unfoldable pub visibility : Text → Prominence → Message N
  visibility id p = widget_visibility id (not (prom_eq p Prominence.hidden)) p

  -- The widgets that are left of the previous snapshot.
  unfoldable pub hide_all : Assoc Prominence → List (Message N)
  hide_all [] = []
  hide_all ((id, p) ∷ rest) = widget_visibility id false Prominence.hidden ∷ hide_all rest

  -- The loop over the committed levels, and the one over the leftovers.
  unfoldable pub diff : Assoc Prominence → Assoc Prominence → List (Message N)
  diff [] prev = hide_all prev
  diff ((id, p) ∷ committed) prev =
      let rest = diff committed (remove id prev) in
      if is_level (lookup id prev) p then rest else visibility id p ∷ rest

  unfoldable pub layout_message : Option PublishedSnapshot → BarLayout → List (Message N)
  layout_message none layout = bar_layout layout ∷ []
  layout_message (some last) layout =
      if layout_eq last.layout layout then [] else bar_layout layout ∷ []

  unfoldable pub publish :
      ContextEngine N → Layout → Hysteresis → ContextEngine N × List (Message N)
  publish e layout h =
      let snapshot : PublishedSnapshot = record {
        layout = layout.layout;
        prominences = h.committed;
      } in
      (
        record e { hysteresis = h; last_published = some snapshot },
        layout_message e.last_published layout.layout
            ++ diff h.committed (previous e.last_published),
      )

  unfoldable pub resolve_and_publish :
      Numbers N → ContextEngine N → ℕ → Option (ContextEngine N × List (Message N))
  resolve_and_publish num e now = elim (resolve_layout num (cascade_input e)) [
    | none ↦ none
    | some layout ↦ elim (observe e.hysteresis layout.prominences now) [
      | none ↦ none
      | some h ↦ some (publish e layout h)
    ]
  ]
