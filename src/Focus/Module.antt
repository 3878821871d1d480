-- ===== src/Focus/Module.antt =====
-- crates/levshell-modules/src/focus/mod.rs: the module that feeds the tracker. The events published on
-- the bus are its output; the lock on the profiles is left out.
use levshell.Prelude.{Text, bytes, ℕ, Bool, Option, none, some, List, [], ◌∷◌, map}
use levshell.Signals.{SignalValue, SignalContext, set, remove_signal}
use levshell.Signals.{new as new_signals}
use levshell.Expr.Syntax.{Expression, Numbers}
use levshell.Expr.Eval.{evaluate}
use levshell.Rules.{AutoTrigger, Profile, unwrap_or_false}
use levshell.Bus.Events.{Event}
use levshell.Focus.{TriggerAction, activate, deactivate, TriggerInput, FocusModeTracker}
use levshell.Focus.{new as new_tracker, tick as tick_tracker}

pub record FocusModeModule (N : Type 0) : Type 0 where
  pub profiles : List (Profile N)
  pub signals : SignalContext N
  pub tracker : FocusModeTracker

module _ {N : Type 0} where
  unfoldable pub new : List (Profile N) → FocusModeModule N
  new profiles = record { profiles = profiles; signals = new_signals; tracker = new_tracker }

  unfoldable pub set_signal : Text → SignalValue N → SignalContext N → SignalContext N
  set_signal key value s = (set key value s).0

  unfoldable pub set_or_clear : Text → Option Text → SignalContext N → SignalContext N
  set_or_clear key none s = (remove_signal key s).0
  set_or_clear key (some text) s = (set key (SignalValue.string text) s).0

  unfoldable pub apply_event : {U : Type 0} → FocusModeModule N → Event U → FocusModeModule N
  apply_event m (Event.workspace_changed name focused_window) = record m {
    signals =
        set_or_clear (bytes "workspace.focused_window") focused_window
          (set_signal (bytes "workspace.name") (SignalValue.string name) m.signals);
  }
  apply_event m (Event.window_focused app_id title) = record m {
    signals =
        set_signal (bytes "focused.title") (SignalValue.string title)
          (set_or_clear (bytes "focused.app_id") app_id m.signals);
  }
  apply_event m (Event.power_state_changed on_battery) = record m {
    signals = set_signal (bytes "power.on_battery") (SignalValue.bool on_battery) m.signals;
  }
  apply_event m _ = m

module _ {N : Type 0} (num : Numbers N) where
  unfoldable pub eval_predicate : Expression N → SignalContext N → Bool
  eval_predicate expr ctx = unwrap_or_false (evaluate num expr ctx)

  abbrev pub input_of : SignalContext N → Text → AutoTrigger N → TriggerInput
  input_of signals name t = record {
    profile = name;
    predicate = eval_predicate t.when signals;
    dwell = t.dwell;
    exit_dwell = t.exit_dwell;
  }

  -- The `filter_map` over the profiles.
  unfoldable pub snapshot_inputs : SignalContext N → List (Profile N) → List TriggerInput
  snapshot_inputs signals [] = []
  snapshot_inputs signals (p ∷ ps) =
      let rest = snapshot_inputs signals ps in
      elim p.auto_trigger [ none ↦ rest | some t ↦ input_of signals p.name t ∷ rest ]

  abbrev pub action_event : {U : Type 0} → TriggerAction → Event U
  action_event (activate name) = Event.profile_action_requested (bytes "activate") (some name)
  action_event (deactivate name) = Event.profile_action_requested (bytes "deactivate") (some name)

  unfoldable pub evaluate_and_publish :
      {U : Type 0} → FocusModeModule N → ℕ → FocusModeModule N × List (Event U)
  evaluate_and_publish m now =
      let (tracker, actions) = tick_tracker m.tracker (snapshot_inputs m.signals m.profiles) now in
      (record m { tracker = tracker }, map action_event actions)

  unfoldable pub on_event :
      {U : Type 0} → FocusModeModule N → Event U → ℕ → FocusModeModule N × List (Event U)
  on_event m ev now = evaluate_and_publish (apply_event m ev) now

  unfoldable pub tick : {U : Type 0} → FocusModeModule N → ℕ → FocusModeModule N × List (Event U)
  tick m now = evaluate_and_publish m now
