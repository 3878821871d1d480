-- ===== src/Focus/Mirror.antt =====
-- The signals that crates/levshell-modules/src/focus/mod.rs mirrors from context_engine.rs.
use levshell.Prelude.{
  ◌≡◌, ◌∙◌, ap, sym, subst, Text, bytes, text_eq, lookup-insert, lookup-remove, All, false, Option,
  none, some, List, [], ◌∷◌, if◌then◌else◌,
}
use levshell.Signals.{SignalValue, SignalContext, set, remove_signal, get}
use levshell.Expr.Syntax.{Numbers}
use levshell.Bus.Events.{Event}
use levshell.Focus.Module.{FocusModeModule}
use levshell.Focus.Module.{
  set_signal as mirror_signal, set_or_clear as mirror_or_clear, apply_event as mirror_event,
}
use levshell.ContextEngine.State.{ContextEngine, Message}
use levshell.ContextEngine.Actions.{
  Scale, set_signal, set_or_clear, clear_signal, set_scale, resolve_scale, silently, apply_event,
}
use levshell.ContextEngine.Profiles.{apply_profile_action-IsAction}

-- The signals that the context engine alone sets.
abbrev pub own_keys : List Text
own_keys =
    bytes "bar.density"
    ∷ bytes "ui.scale"
    ∷ bytes "focus_session.active"
    ∷ bytes "focus_session.on_break"
    ∷ bytes "focus_session.kind"
    ∷ []

abbrev pub IsShared : Text → Type 0
IsShared k = All (λ j. text_eq j k ≡ false) own_keys

module _ {N : Type 0} where
  -- The two contexts have the same signal under the key.
  abbrev pub Agree : Text → SignalContext N → SignalContext N → Type 0
  Agree k s t = get s k ≡ get t k

  set-Agree :
      (k key : Text) (v : SignalValue N) (s t : SignalContext N)
      → Agree k s t
      → Agree k (set key v s).0 (set key v t).0
  unfolding get set
  set-Agree k key v s t h =
      lookup-insert key k v s.values
      ∙ ap (λ o. if text_eq key k then some v else o) h
      ∙ sym (lookup-insert key k v t.values)

  remove-Agree :
      (k key : Text) (s t : SignalContext N)
      → Agree k s t
      → Agree k (remove_signal key s).0 (remove_signal key t).0
  unfolding get remove_signal
  remove-Agree k key s t h =
      lookup-remove key k s.values
      ∙ ap (λ o. if text_eq key k then none else o) h
      ∙ sym (lookup-remove key k t.values)

  -- A signal of the engine alone.
  set_own-Agree :
      (k key : Text) (v : SignalValue N) (s t : SignalContext N)
      → text_eq key k ≡ false
      → Agree k s t
      → Agree k (set key v s).0 t
  unfolding get set
  set_own-Agree k key v s t other h = lookup-insert key k v s.values ∙ rw other h

  pub result-Agree :
      (k : Text) (e e' : ContextEngine N) (first ms : List (Message N)) (t : SignalContext N)
      → ◌≡◌ {A = Option (ContextEngine N × List (Message N))} (some (e, first)) (some (e', ms))
      → Agree k e.signals t
      → Agree k e'.signals t
  result-Agree k e e' first ms t h a =
      let same : e ≡ e' = cc in subst (λ x. Agree k x.signals t) same a

  set_or_clear-Agree :
      (k key : Text) (o : Option Text) (e : ContextEngine N) (t : SignalContext N)
      → Agree k e.signals t
      → Agree k (set_or_clear key o e).signals (mirror_or_clear key o t)
  unfolding set_or_clear mirror_or_clear clear_signal set_signal
  set_or_clear-Agree k key none e t h = remove-Agree k key e.signals t h
  set_or_clear-Agree k key (some v) e t h = set-Agree k key (SignalValue.string v) e.signals t h

  set_signal-Agree :
      (k key : Text) (v : SignalValue N) (e : ContextEngine N) (t : SignalContext N)
      → Agree k e.signals t
      → Agree k (set_signal key v e).signals (mirror_signal key v t)
  unfolding set_signal mirror_signal
  set_signal-Agree k key v e t h = set-Agree k key v e.signals t h

  set_signal_own-Agree :
      (k key : Text) (v : SignalValue N) (e : ContextEngine N) (t : SignalContext N)
      → text_eq key k ≡ false
      → Agree k e.signals t
      → Agree k (set_signal key v e).signals t
  unfolding set_signal
  set_signal_own-Agree k key v e t other h = set_own-Agree k key v e.signals t other h

module _ {N : Type 0} (num : Numbers N) (scale : Scale N) where
  set_scale-Agree :
      (k : Text) (e e' : ContextEngine N) (o : Option N) (ms : List (Message N))
      (t : SignalContext N)
      → text_eq (bytes "ui.scale") k ≡ false
      → set_scale num scale e o ≡ some (e', ms)
      → Agree k e.signals t
      → Agree k e'.signals t
  unfolding set_scale
  set_scale-Agree k e e' none ms t other h a = cc
  set_scale-Agree k e e' (some n) ms t other h a =
      result-Agree k (set_signal (bytes "ui.scale") (SignalValue.string (scale.to_text n)) e) e' _
        ms t h
        (set_signal_own-Agree k (bytes "ui.scale") (SignalValue.string (scale.to_text n)) e t other
          a)

  pub apply_event-Agree :
      {U : Type 0} (k : Text) (e e' : ContextEngine N) (m : FocusModeModule N) (ev : Event U)
      (ms : List (Message N))
      → IsShared k
      → apply_event num scale e ev ≡ some (e', ms)
      → Agree k e.signals m.signals
      → Agree k e'.signals (mirror_event m ev).signals
  unfolding apply_event mirror_event
  apply_event-Agree k e e' m (Event.workspace_changed name focused_window) ms shared h a =
      result-Agree k _ e' _ ms _ h (
        set_or_clear-Agree k (bytes "workspace.focused_window") focused_window _ _
          (set_signal-Agree k (bytes "workspace.name") (SignalValue.string name) e m.signals a))
  apply_event-Agree k e e' m (Event.window_focused app_id title) ms shared h a =
      result-Agree k _ e' _ ms _ h (
        set_signal-Agree k (bytes "focused.title") (SignalValue.string title) _ _
          (set_or_clear-Agree k (bytes "focused.app_id") app_id e m.signals a))
  apply_event-Agree k e e' m (Event.power_state_changed b) ms shared h a =
      result-Agree k _ e' _ ms _ h
        (set_signal-Agree k (bytes "power.on_battery") (SignalValue.bool b) e m.signals a)
  apply_event-Agree k e e' m (Event.bar_density_requested mode) ms shared h a =
      result-Agree k _ e' _ ms _ h
        (set_signal_own-Agree k (bytes "bar.density") _ e m.signals shared.0 a)
  apply_event-Agree k e e' m (Event.ui_scale_requested value) ms shared h a =
      set_scale-Agree k e e' (resolve_scale num scale e value) ms m.signals shared.1.0 h a
  apply_event-Agree k e e' m (Event.profile_action_requested action name) ms shared h a =
      let (e1, ran, act) = apply_profile_action-IsAction e action name in
      let silent : ◌≡◌ {A = Option (ContextEngine N × List (Message N))} (some (e1, []))
          (some (e', ms)) =
        sym (ap (silently num scale) ran) ∙ h in
      result-Agree k e1 e' [] ms m.signals silent (ap (λ x. get x.signals k) act.rest ∙ a)
  apply_event-Agree k e e' m (Event.focus_session_started kind project planned_secs) ms shared h a =
      result-Agree k _ e' _ ms _ h (
        set_signal_own-Agree k (bytes "focus_session.kind") _ _ _ shared.1.1.1.1.0 (
          set_signal_own-Agree k (bytes "focus_session.on_break") _ _ _ shared.1.1.1.0
            (set_signal_own-Agree k (bytes "focus_session.active") _ e m.signals shared.1.1.0 a)))
  apply_event-Agree k e e' m (Event.focus_session_ended kind project actual_secs) ms shared h a =
      result-Agree k _ e' _ ms _ h (
        set_signal_own-Agree k (bytes "focus_session.kind") _ _ _ shared.1.1.1.1.0 (
          set_signal_own-Agree k (bytes "focus_session.on_break") _ _ _ shared.1.1.1.0
            (set_signal_own-Agree k (bytes "focus_session.active") _ e m.signals shared.1.1.0 a)))
  apply_event-Agree k e e' m _ ms shared h a = result-Agree k e e' [] ms m.signals h a
