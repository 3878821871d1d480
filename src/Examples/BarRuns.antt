-- ===== src/Examples/BarRuns.antt =====
-- Runs of the cascade and of the debouncer, crates/levshell-context/src/cascade.rs and hysteresis.rs.
use levshell.Prelude.{
  ℕ, remove, ◌<◌, insert, text_le, ◌+◌, ◌*◌, ◌≤◌, ◌≡◌, ◌≢◌, ◌⊎◌, refl, Text, bytes, text_eq, Assoc,
  lookup, IsMap, true, none, some, List, [], ◌∷◌, if◌then◌else◌, arith, any_of,
}
use levshell.Prominence.{Prominence, hidden, badge, compact, visible, expanded, rank}
use levshell.Hysteresis.{
  HysteresisConfig, Hysteresis, ready, commit_all, delay, decide, decide_all, observe, force_commit,
}
use levshell.Hysteresis.Widget.{view, widget_step, observe-view}
use levshell.Hysteresis.Invariant.{IsValid, observe-IsValid, force_commit-IsValid}
use levshell.Hysteresis.Machine.{steady_since}
use levshell.Hysteresis.Runs.{Calls, run, AreMaps, asks}
use levshell.Hysteresis.Timing.{Committed, commit_needs_delay, commits_when_due}
use levshell.Signals.{get, as_number}
use levshell.Expr.Eval.{
  evaluate, eval_compare, resolve_term, compare_values, eval_order, eval_truthy, truth_of,
}
use levshell.Rules.{evaluate as fires, WidgetDef, CompiledRule, left, right, pos}
use levshell.Cascade.{
  CascadeInput, Layout, Placement, constrain, requested, finish_layout, apply_profile, apply_rule,
  apply_overrides, seed, fit_all, fit_widget, sort_insert, zone_ids, collect_zone, demote_one,
  resolve_layout, apply_rules, is_known, sort_by, widget_before,
}
use levshell.Cascade.Fit.{Fitted, fit_widget_lem}
use levshell.Cascade.Budget.{used, IsDistinct}
use levshell.Cascade.Known.{resolve_layout-total}
use levshell.Cascade.Resolve.{resolve_layout-fits, replaced}
use levshell.Cascade.Votes.{Above, VotedFor, apply_rules-highest}
use levshell.Examples.ExprRuns.{digits, battery_tree, battery_signals}

abbrev config : HysteresisConfig
config = record { activation_delay = 2; deactivation_delay = 30 }

abbrev battery : Text
battery = bytes "battery"

abbrev clock : Text
clock = bytes "clock"

-- The battery is waiting to grow.
abbrev waiting : Hysteresis
waiting = record {
  config = config;
  committed = (battery, compact) ∷ [];
  pending = (battery, record { target = visible; commit_at = 12 }) ∷ [];
}

abbrev asked : Assoc Prominence
asked = (battery, visible) ∷ (clock, visible) ∷ []

asked-IsMap : IsMap asked
unfolding text_eq
asked-IsMap = ((refl, tt), (tt, tt))

waiting-IsValid : IsValid waiting
unfolding lookup
waiting-IsValid = record {
  committed_map = (tt, tt);
  pending_map = (tt, tt);
  coherent = λ j. ground arith;
}

observe-view_example :
    (h' : Hysteresis) × (observe waiting asked 12 ≡ some h')
    × ((j : Text) → view h' j ≡ widget_step config 12 (lookup j asked) (view waiting j))
observe-view_example = observe-view waiting asked 12 (tt, tt) asked-IsMap

observe-IsValid_example : (h' : Hysteresis) × (observe waiting asked 12 ≡ some h') × IsValid h'
observe-IsValid_example = observe-IsValid waiting asked 12 asked-IsMap waiting-IsValid

force_commit-IsValid_example :
    IsValid (force_commit waiting battery hidden)
    × ((j : Text)
        → view (force_commit waiting battery hidden) j ≡ (
            if text_eq battery j
            then record { committed = some hidden; pending = none }
            else view waiting j))
force_commit-IsValid_example = force_commit-IsValid waiting battery hidden waiting-IsValid

abbrev at_rest : Hysteresis
at_rest = record { config = config; committed = (battery, compact) ∷ []; pending = [] }

-- The battery is asked to grow at 10, and not named at 11.
abbrev calls : Calls
calls = ((clock, visible) ∷ [], 11) ∷ (asked, 10) ∷ []

calls-AreMaps : AreMaps calls
calls-AreMaps = ((tt, tt), (asked-IsMap, tt))

at_rest-IsValid : IsValid at_rest
unfolding lookup
at_rest-IsValid = record {
  committed_map = (tt, tt);
  pending_map = tt;
  coherent = λ j. ground arith;
}

battery-at_rest : lookup battery at_rest.pending ≡ none
unfolding lookup
battery-at_rest = refl

battery-asks : asks battery calls ≡ (10, visible) ∷ []
unfolding asks lookup text_eq
battery-asks = refl

battery-asked : lookup battery asked ≡ some visible
unfolding lookup text_eq
battery-asked = refl

commit_needs_delay_example :
    (h1 : Hysteresis) × (h2 : Hysteresis) × (run at_rest calls ≡ some h1)
    × (observe h1 asked 12 ≡ some h2)
    × Committed config 12
        (lookup battery asked)
        (asks battery calls)
        (lookup battery h1.committed)
        (lookup battery h2.committed)
commit_needs_delay_example =
    commit_needs_delay at_rest calls asked 12 battery at_rest-IsValid calls-AreMaps asked-IsMap
      battery-at_rest

commits_when_due_example :
    (h1 : Hysteresis) × (h2 : Hysteresis) × (run at_rest calls ≡ some h1)
    × (observe h1 asked 12 ≡ some h2)
    × (((lookup battery h2.pending ≡ none) × (lookup battery h2.committed ≡ some visible))
        ⊎ ((c : Prominence) × (lookup battery h1.committed ≡ some c)
            × (c ≢ visible)
            × (12 < steady_since 10 visible [] + delay config c visible)))
commits_when_due_example =
    commits_when_due at_rest calls asked 12 battery visible 10 [] at_rest-IsValid calls-AreMaps
      asked-IsMap battery-at_rest battery-asked battery-asks

-- At 11 the battery is still compact; the call at 12 makes it visible.
grows_at_12 :
    run at_rest ((asked, 12) ∷ calls)
    ≡ some (record {
      config = config;
      committed = (battery, visible) ∷ (clock, visible) ∷ [];
      pending = [];
    })
unfolding run observe ready commit_all decide decide_all lookup insert remove text_eq
grows_at_12 = refl

abbrev widgets : List WidgetDef
widgets =
    record {
      id = battery;
      widget_type = battery;
      default_prominence = compact;
      priority = pos 5;
      zone = right;
    }
    ∷ record {
      id = clock;
      widget_type = clock;
      default_prominence = visible;
      priority = pos 9;
      zone = left;
    }
    ∷ []

abbrev rules : List (CompiledRule ℕ)
rules =
    record {
      target = battery;
      when = battery_tree;
      prominence = expanded;
      activation_delay = none;
      deactivation_delay = none;
      source = [];
    }
    ∷ []

-- Ten pixels for each level above hidden, on a bar of 60.
abbrev input : CascadeInput ℕ
input = record {
  widgets = widgets;
  signals = battery_signals;
  rules = rules;
  active_profile = none;
  available_width = 60;
  widget_width = λ id p. 10 * rank p;
  user_overrides = (clock, expanded) ∷ [];
  inter_widget_gap = 4;
}

widgets-IsDistinct : IsDistinct widgets
unfolding text_eq
widgets-IsDistinct = ((refl, tt), (tt, tt))

resolve_layout-fits_example :
    (layout : Layout) × (settled : Assoc Prominence) × (resolve_layout digits input ≡ some layout)
    × (used 4 (λ id p. 10 * rank p) settled (sort_by widget_before widgets) 0 ≤ 60)
    × ((id : Text)
        → lookup id layout.prominences
          ≡ replaced (lookup id settled) (lookup id input.user_overrides))
resolve_layout-fits_example =
    resolve_layout-fits digits input (omega arith) widgets-IsDistinct (tt, tt)

resolve_layout-total_example : (layout : Layout) × (resolve_layout digits input ≡ some layout)
resolve_layout-total_example = resolve_layout-total digits input

abbrev before_battery : Placement
before_battery = record { prominences = asked; running = 40; visible_count = 1 }

fit_widget_lem_example : Fitted 60 4 (λ id p. 10 * rank p) 6 battery before_battery visible
fit_widget_lem_example =
    fit_widget_lem 60 4 (λ id p. 10 * rank p) battery before_battery visible battery-asked

battery_known : is_known widgets battery ≡ true
unfolding any_of text_eq
battery_known = refl

apply_rules-highest_example :
    (q : Prominence) × (lookup battery (apply_rules digits widgets battery_signals asked rules)
      ≡ some q)
    × (rank visible ≤ rank q)
    × Above digits widgets battery_signals battery q rules
    × ((q ≡ visible) ⊎ VotedFor digits widgets battery_signals battery q rules)
apply_rules-highest_example =
    apply_rules-highest digits widgets battery_signals asked rules battery visible battery_known
      battery-asked

-- The rule raises the battery to expanded, which leaves room for it as a badge only; the user's
-- override then expands the clock.
low_battery_layout :
    resolve_layout digits input
    ≡ some (record {
      prominences = (battery, badge) ∷ (clock, expanded) ∷ [];
      layout = record { left = clock ∷ []; center = []; right = battery ∷ [] };
    })
unfolding resolve_layout constrain requested finish_layout apply_profile apply_rules apply_rule
    apply_overrides seed fit_all fit_widget sort_by sort_insert zone_ids collect_zone demote_one
    lookup insert text_eq text_le any_of fires evaluate eval_compare resolve_term get compare_values
    eval_order as_number eval_truthy truth_of
low_battery_layout = refl
