-- ===== src/Examples/EngineRuns.antt =====
-- A run of crates/levshell-modules/src/context_engine.rs with its own widgets.
use levshell.Prelude.{
  refl, Text, ℕ, ◌≡◌, bytes, lookup, true, false, ◌==◌, Option, none, some, List, [], ◌∷◌, arith,
}
use levshell.Bus.Events.{Event}
use levshell.Rules.{Profile}
use levshell.Hysteresis.{new as new_hysteresis}
use levshell.Hysteresis.Invariant.{IsValid}
use levshell.ContextEngine.State.{ContextEngine, Message, new}
use levshell.ContextEngine.Widgets.{default_widgets}
use levshell.ContextEngine.Actions.{Scale, apply_profile_action}
use levshell.ContextEngine.Profiles.{IsKnown, apply_profile_action-keeps}
use levshell.ContextEngine.Runs.{IsSynced, run, run-IsSynced}
use levshell.Focus.Module.{FocusModeModule}
use levshell.Focus.Module.{new as new_focus}
use levshell.Focus.Mirror.{IsShared, Agree}
use levshell.Focus.Watch.{watch, run-mirrors}
use levshell.Examples.ExprRuns.{digits}

-- Factors in percent.
abbrev percent : Scale ℕ
percent = record {
  steps = 100 ∷ 125 ∷ 150 ∷ 175 ∷ 200 ∷ [];
  default_scale = 175;
  is_near = λ a b. a == b;
  clamp = λ n. n;
  to_text = λ n. bytes "scaled";
}

abbrev reading : Profile ℕ
reading = record {
  name = bytes "reading";
  overrides = [];
  suppress_notifications = false;
  auto_trigger = none;
}

abbrev engine : ContextEngine ℕ
engine = record (new {N = ℕ}) { widgets = default_widgets; profiles = reading ∷ [] }

engine-IsValid : IsValid engine.hysteresis
unfolding new new_hysteresis lookup
engine-IsValid = record { committed_map = tt; pending_map = tt; coherent = λ j. tt }

abbrev calls : List (Option (Event ℕ) × ℕ)
calls =
    (none, 0)
    ∷ (some (Event.power_state_changed true), 1000000000)
    ∷ (some (Event.profile_action_requested (bytes "cycle") none), 2000000000)
    ∷ (some (Event.ui_scale_requested (bytes "cycle")), 3000000000)
    ∷ (none, 20000000000)
    ∷ []

run-IsSynced_example :
    (e' : ContextEngine ℕ) × (ms : List (Message ℕ)) × (run digits percent engine calls
      ≡ some (e', ms))
    × IsSynced engine e' ms
unfolding new
run-IsSynced_example = run-IsSynced digits percent engine calls (omega arith) engine-IsValid tt

apply_profile_action-keeps_example :
    (e' : ContextEngine ℕ) × (apply_profile_action engine (bytes "cycle") none ≡ some e')
    × (record e' { active_profile = none } ≡ engine)
    × IsKnown engine.profiles e'.active_profile
unfolding new
apply_profile_action-keeps_example = apply_profile_action-keeps engine (bytes "cycle") none tt

abbrev focus : FocusModeModule ℕ
focus = new_focus (reading ∷ [])

run-mirrors_example :
    (e' : ContextEngine ℕ) × (ms : List (Message ℕ)) × (run digits percent engine calls
      ≡ some (e', ms))
    × ((k : Text) → IsShared k → Agree k e'.signals (watch digits focus calls).signals)
unfolding new new_focus
run-mirrors_example =
    run-mirrors digits percent engine focus calls (omega arith) engine-IsValid tt (λ k shared. refl)
