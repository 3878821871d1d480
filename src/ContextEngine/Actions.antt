-- ===== src/ContextEngine/Actions.antt =====
-- How crates/levshell-modules/src/context_engine.rs handles an event. `none` stands for a panic, of
-- an index out of range too.
use levshell.Prelude.{
  ℕ, zero, suc, ◌+◌, ◌-◌, ◌%◌, Text, bytes, text_eq, text_le, Bool, true, false, Option, none, some,
  List, [], ◌∷◌, ◌++◌, length, map, any_of, if◌then◌else◌,
}
use levshell.Signals.{SignalValue, set, remove_signal, get, as_str}
use levshell.Expr.Syntax.{Numbers}
use levshell.Rules.{Profile}
use levshell.Cascade.{sort_by}
use levshell.Bus.Events.{Event}
use levshell.ContextEngine.State.{
  ContextEngine, BarDensity, full, compact, hidden, Message, bar_density_state, ui_scale_state,
  resolve_and_publish,
}

-- What the handling of the interface scale takes from f64: the factors 1.0 to 2.0 that it cycles
-- through, 1.75, the comparison up to 1e-6, `clamp(0.5, 4.0)` and `to_string`.
pub record Scale (N : Type 0) : Type 0 where
  pub steps : List N
  pub default_scale : N
  pub is_near : N → N → Bool
  pub clamp : N → N
  pub to_text : N → Text

module _ {N : Type 0} where
  unfoldable pub set_signal : Text → SignalValue N → ContextEngine N → ContextEngine N
  set_signal key value e = record e { signals = (set key value e.signals).0 }

  unfoldable pub clear_signal : Text → ContextEngine N → ContextEngine N
  clear_signal key e = record e { signals = (remove_signal key e.signals).0 }

  unfoldable pub set_or_clear : Text → Option Text → ContextEngine N → ContextEngine N
  set_or_clear key none e = clear_signal key e
  set_or_clear key (some s) e = set_signal key (SignalValue.string s) e

  -- `.and_then(|v| v.as_str())`.
  abbrev pub text_signal : Option (SignalValue N) → Option Text
  text_signal none = none
  text_signal (some v) = as_str v

abbrev pub unwrap_or {ℓ} : {A : Type ℓ} → Option A → A → A
unwrap_or none a = a
unwrap_or (some b) a = b

unfoldable pub next_density : Text → Text
next_density current =
    if text_eq current (bytes "full")
    then bytes "compact"
    else if text_eq current (bytes "compact")
    then bytes "hidden"
    else bytes "full"

unfoldable pub density_of : Text → BarDensity
density_of resolved =
    if text_eq resolved (bytes "compact")
    then compact
    else if text_eq resolved (bytes "hidden")
    then hidden
    else full

-- `position`, and the index that follows the last if there is none.
unfoldable pub position {ℓ} : {A : Type ℓ} → (A → Bool) → List A → Option ℕ
position p [] = none
position p (x ∷ xs) =
    if p x then some 0 else elim (position p xs) [ none ↦ none | some i ↦ some (suc i) ]

unfoldable pub get_elem? {ℓ} : {A : Type ℓ} → List A → ℕ → Option A
get_elem? [] i = none
get_elem? (x ∷ xs) zero = some x
get_elem? (x ∷ xs) (suc i) = get_elem? xs i

-- `xs[(position.unwrap_or(len - 1) + 1) % len]`.
unfoldable pub next_in {ℓ} : {A : Type ℓ} → (A → Bool) → List A → Option A
next_in p xs = get_elem? xs ((unwrap_or (position p xs) (length xs - 1) + 1) % length xs)

-- The profile that `cycle` takes; the list is not empty.
unfoldable pub next_profile : List Text → Option Text → Option Text
next_profile ns none = get_elem? ns 0
next_profile ns (some current) = next_in (λ n. text_eq n current) ns

abbrev pub is_active : Option Text → Text → Bool
is_active none target = false
is_active (some current) target = text_eq current target

module _ {N : Type 0} where
  unfoldable pub names : List (Profile N) → List Text
  names ps = sort_by text_le (map (λ p. p.name) ps)

  abbrev pub has_profile : List (Profile N) → Text → Bool
  has_profile ps name = any_of (λ p. text_eq p.name name) ps

  unfoldable pub activate : ContextEngine N → Option Text → ContextEngine N
  activate e none = e
  activate e (some target) =
      if has_profile e.profiles target then record e { active_profile = some target } else e

  unfoldable pub deactivate : ContextEngine N → Option Text → ContextEngine N
  deactivate e none = record e { active_profile = none }
  deactivate e (some target) =
      if is_active e.active_profile target then record e { active_profile = none } else e

  unfoldable pub cycle : ContextEngine N → Option (ContextEngine N)
  cycle e = elim e.profiles [
    | [] ↦ some e
    | p ∷ ps ↦ elim (next_profile (names e.profiles) e.active_profile) [
      | none ↦ none
      | some next ↦ some (record e { active_profile = some next })
    ]
  ]

  unfoldable pub apply_profile_action :
      ContextEngine N → Text → Option Text → Option (ContextEngine N)
  apply_profile_action e action name =
      if text_eq action (bytes "activate")
      then some (activate e name)
      else if text_eq action (bytes "deactivate")
      then some (deactivate e name)
      else if text_eq action (bytes "cycle")
      then cycle e
      else some e

  unfoldable pub resolve_density : ContextEngine N → Text → Text
  resolve_density e mode =
      if text_eq mode (bytes "cycle")
      then next_density
          (unwrap_or (text_signal (get e.signals (bytes "bar.density"))) (bytes "full"))
      else mode

module _ {N : Type 0} (num : Numbers N) (scale : Scale N) where
  -- `.and_then(|s| s.parse::<f64>().ok())`.
  abbrev pub parsed : Option Text → Option N
  parsed none = none
  parsed (some s) = num.parse_f64 s

  unfoldable pub resolve_scale : ContextEngine N → Text → Option N
  resolve_scale e value =
      let current : N =
        unwrap_or (parsed (text_signal (get e.signals (bytes "ui.scale")))) scale.default_scale in
      if text_eq value (bytes "cycle")
      then next_in (λ s. scale.is_near s current) scale.steps
      else some (scale.clamp (unwrap_or (num.parse_f64 value) scale.default_scale))

  unfoldable pub set_scale :
      ContextEngine N → Option N → Option (ContextEngine N × List (Message N))
  set_scale e none = none
  set_scale e (some resolved) = some (
    set_signal (bytes "ui.scale") (SignalValue.string (scale.to_text resolved)) e,
    ui_scale_state resolved ∷ [],
  )

  -- No message goes out.
  abbrev pub silently : Option (ContextEngine N) → Option (ContextEngine N × List (Message N))
  silently none = none
  silently (some e) = some (e, [])

  unfoldable pub apply_event :
      {U : Type 0} → ContextEngine N → Event U → Option (ContextEngine N × List (Message N))
  apply_event e (Event.workspace_changed name focused_window) =
      let named = set_signal (bytes "workspace.name") (SignalValue.string name) e in
      some (set_or_clear (bytes "workspace.focused_window") focused_window named, [])
  apply_event e (Event.window_focused app_id title) =
      let app = set_or_clear (bytes "focused.app_id") app_id e in
      some (set_signal (bytes "focused.title") (SignalValue.string title) app, [])
  apply_event e (Event.power_state_changed on_battery) =
      some (set_signal (bytes "power.on_battery") (SignalValue.bool on_battery) e, [])
  apply_event e (Event.bar_density_requested mode) =
      let resolved = resolve_density e mode in
      some (
        set_signal (bytes "bar.density") (SignalValue.string resolved) e,
        bar_density_state (density_of resolved) ∷ [],
      )
  apply_event e (Event.ui_scale_requested value) = set_scale e (resolve_scale e value)
  apply_event e (Event.profile_action_requested action name) =
      silently (apply_profile_action e action name)
  apply_event e (Event.focus_session_started kind project planned_secs) =
      let active = set_signal (bytes "focus_session.active") (SignalValue.bool true) e in
      let on_break =
        set_signal (bytes "focus_session.on_break")
          (SignalValue.bool (text_eq kind (bytes "break"))) active in
      some (set_signal (bytes "focus_session.kind") (SignalValue.string kind) on_break, [])
  apply_event e (Event.focus_session_ended kind project actual_secs) =
      let active = set_signal (bytes "focus_session.active") (SignalValue.bool false) e in
      let on_break = set_signal (bytes "focus_session.on_break") (SignalValue.bool false) active in
      some
        (set_signal (bytes "focus_session.kind") (SignalValue.string (bytes "idle")) on_break, [])
  apply_event e _ = some (e, [])

  unfoldable pub on_event :
      {U : Type 0} → ContextEngine N → Event U → ℕ → Option (ContextEngine N × List (Message N))
  on_event e ev now = elim (apply_event e ev) [
    | none ↦ none
    | some (e1, first) ↦ elim (resolve_and_publish num e1 now) [
      | none ↦ none
      | some (e2, rest) ↦ some (e2, first ++ rest)
    ]
  ]

  -- `start` and `tick`.
  unfoldable pub tick : ContextEngine N → ℕ → Option (ContextEngine N × List (Message N))
  tick e now = resolve_and_publish num e now
