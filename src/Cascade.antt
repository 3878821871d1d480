-- ===== src/Cascade.antt =====
-- crates/levshell-context/src/cascade.rs: the five steps that settle the prominence of every widget.
-- `none` stands for the panic of `expect("widget seeded in step 1")`, and for a demotion loop that
-- has not ended after the rounds it is given.
pub mod Known
pub mod Resolve
pub mod Votes
pub mod Maps
pub mod Sorting
pub mod Fit
pub mod Budget
use levshell.Prelude.{
  ℕ, zero, suc, ◌+◌, Text, text_eq, text_le, Assoc, lookup, insert, Bool, true, false, ◌&&◌, ◌||◌,
  Option, none, some, List, [], ◌∷◌, map, if◌then◌else◌, leb, any_of, saturating_add, ltb,
}
use levshell.Prominence.{
  Prominence, hidden, badge, icon_only, compact, visible, expanded, prom_eq, prom_lt,
}
use levshell.Signals.{SignalContext}
use levshell.Expr.Syntax.{Numbers}
use levshell.Rules.{
  WidgetDef, CompiledRule, Profile, Zone, left, center, right, ℤ, lt_ℤ, eq_ℤ, evaluate,
}

-- `widget_width` is the estimate that the caller supplies.
pub record CascadeInput (N : Type 0) : Type 0 where
  pub widgets : List WidgetDef
  pub signals : SignalContext N
  pub rules : List (CompiledRule N)
  pub active_profile : Option (Profile N)
  pub available_width : ℕ
  pub widget_width : Text → Prominence → ℕ
  pub user_overrides : Assoc Prominence
  pub inter_widget_gap : ℕ

pub record BarLayout : Type 0 where
  pub left : List Text
  pub center : List Text
  pub right : List Text

pub record Layout : Type 0 where
  pub prominences : Assoc Prominence
  pub layout : BarLayout

unfoldable pub demote_one : Prominence → Prominence
demote_one expanded = visible
demote_one visible = compact
demote_one compact = icon_only
demote_one icon_only = badge
demote_one badge = hidden
demote_one hidden = hidden

-- `slice::sort_by`, a stable sort: `before a b` is that `a` may stand before `b`.
module _ {A : Type 0} (before : A → A → Bool) where
  unfoldable pub sort_insert : A → List A → List A
  sort_insert x [] = x ∷ []
  sort_insert x (y ∷ ys) = if before x y then x ∷ y ∷ ys else y ∷ sort_insert x ys

  unfoldable pub sort_by : List A → List A
  unfolding sort_insert
  sort_by [] = []
  sort_by (x ∷ xs) = sort_insert x (sort_by xs)

-- Descending priority, then ascending id.
abbrev pub place_before : ℤ × Text → ℤ × Text → Bool
place_before a b = lt_ℤ b.0 a.0 || (eq_ℤ b.0 a.0 && text_le a.1 b.1)

abbrev pub widget_before : WidgetDef → WidgetDef → Bool
widget_before a b = place_before (a.priority, a.id) (b.priority, b.id)

-- Step 1.
unfoldable pub seed : Assoc Prominence → List WidgetDef → Assoc Prominence
seed m [] = m
seed m (w ∷ ws) = seed (insert w.id w.default_prominence m) ws

abbrev pub get_or_hidden : Option Prominence → Prominence
get_or_hidden none = hidden
get_or_hidden (some p) = p

abbrev pub higher : Prominence → Prominence → Prominence
higher slot p = if prom_lt slot p then p else slot

abbrev pub is_known : List WidgetDef → Text → Bool
is_known ws id = any_of (λ w. text_eq w.id id) ws

module _ {N : Type 0} (num : Numbers N) where
  -- Step 2 for one rule, and for all.
  unfoldable pub apply_rule :
      List WidgetDef → SignalContext N → Assoc Prominence → CompiledRule N → Assoc Prominence
  apply_rule ws signals m rule =
      if is_known ws rule.target
      then if evaluate num rule signals
        then insert rule.target (higher (get_or_hidden (lookup rule.target m)) rule.prominence) m
        else m
      else m

  unfoldable pub apply_rules :
      List WidgetDef → SignalContext N → Assoc Prominence → List (CompiledRule N) → Assoc Prominence
  apply_rules ws signals m [] = m
  apply_rules ws signals m (rule ∷ rules) =
      apply_rules ws signals (apply_rule ws signals m rule) rules

-- `if let Some(slot) = prominences.get_mut(widget) { *slot = prom }`.
abbrev pub replace_known :
    Option Prominence → Text → Prominence → Assoc Prominence → Assoc Prominence
replace_known none widget prom m = m
replace_known (some slot) widget prom m = insert widget prom m

-- The loops of steps 3 and 5.
unfoldable pub apply_overrides : Assoc Prominence → Assoc Prominence → Assoc Prominence
apply_overrides m [] = m
apply_overrides m ((widget, prom) ∷ os) =
    apply_overrides (replace_known (lookup widget m) widget prom m) os

unfoldable pub apply_profile :
    {N : Type 0} → Option (Profile N) → Assoc Prominence → Assoc Prominence
apply_profile none m = m
apply_profile (some profile) m = apply_overrides m profile.overrides

-- The variables of step 4.
pub record Placement : Type 0 where
  pub prominences : Assoc Prominence
  pub running : ℕ
  pub visible_count : ℕ

-- The gap in front of one more widget.
abbrev pub gap_for : ℕ → ℕ → ℕ
gap_for gap visible_count = if ltb 0 visible_count then gap else 0

module _ (available gap : ℕ) (width : Text → Prominence → ℕ) where
  -- What the bar is filled to with this widget at this level.
  abbrev pub with_widget : Placement → Text → Prominence → ℕ
  with_widget s id p =
      saturating_add (saturating_add s.running (width id p)) (gap_for gap s.visible_count)

  -- The demotion loop for one widget.
  unfoldable pub fit_widget : ℕ → Text → Placement → Option Placement
  fit_widget zero id s = none
  fit_widget (suc rounds) id s = elim (lookup id s.prominences) [
    | none ↦ none
    | some p ↦
        let demoted = record s { prominences = insert id (demote_one p) s.prominences } in
        let again = fit_widget rounds id demoted in
        if prom_eq p hidden
        then some s
        else if leb (with_widget s id p) available
        then some (record s { running = with_widget s id p; visible_count = s.visible_count + 1 })
        else if prom_eq (demote_one p) hidden
        then some demoted
        else again
  ]

  unfoldable pub fit_all : List WidgetDef → Placement → Option Placement
  fit_all [] s = some s
  fit_all (w ∷ ws) s = elim (fit_widget 6 w.id s) [ none ↦ none | some s' ↦ fit_all ws s' ]

-- Step 4.
unfoldable pub constrain :
    ℕ → ℕ → (Text → Prominence → ℕ) → List WidgetDef → Assoc Prominence → Option Placement
constrain available gap width ws m =
    fit_all available gap width (sort_by widget_before ws)
      (record { prominences = m; running = 0; visible_count = 0 })

abbrev pub zone_eq : Zone → Zone → Bool
zone_eq left left = true
zone_eq center center = true
zone_eq right right = true
zone_eq _ _ = false

-- The widgets of a zone that are not hidden, with their priorities.
unfoldable pub collect_zone : Zone → Assoc Prominence → List WidgetDef → List (ℤ × Text)
collect_zone z m [] = []
collect_zone z m (w ∷ ws) =
    if prom_eq (get_or_hidden (lookup w.id m)) hidden
    then collect_zone z m ws
    else if zone_eq w.zone z
    then (w.priority, w.id) ∷ collect_zone z m ws
    else collect_zone z m ws

unfoldable pub zone_ids : Zone → Assoc Prominence → List WidgetDef → List Text
zone_ids z m ws = map (λ e. e.1) (sort_by place_before (collect_zone z m ws))

module _ {N : Type 0} (num : Numbers N) where
  -- Steps 1 to 3.
  unfoldable pub requested : CascadeInput N → Assoc Prominence
  requested input =
      apply_profile input.active_profile
        (apply_rules num input.widgets input.signals (seed [] input.widgets) input.rules)

  -- Step 5, and the ids of each zone.
  unfoldable pub finish_layout : CascadeInput N → Placement → Layout
  finish_layout input s =
      let m = apply_overrides s.prominences input.user_overrides in
      record {
        prominences = m;
        layout = record {
          left = zone_ids left m input.widgets;
          center = zone_ids center m input.widgets;
          right = zone_ids right m input.widgets;
        };
      }

  unfoldable pub resolve_layout : CascadeInput N → Option Layout
  resolve_layout input =
      elim (constrain input.available_width input.inter_widget_gap input.widget_width input.widgets
        (requested input)) [ none ↦ none | some s ↦ some (finish_layout input s) ]
