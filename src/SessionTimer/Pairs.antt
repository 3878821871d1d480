-- ===== src/SessionTimer/Pairs.antt =====
-- The events of crates/levshell-modules/src/session_timer.rs, as a listener on the bus sees them.
use levshell.Prelude.{
  ◌+◌, ◌%◌, ◌^◌, ◌≡◌, refl, ◌∙◌, ap, Text, bytes, text_eq, Bool, true, false, ◌&&◌, ◌||◌, Option,
  none, some, List, [], ◌∷◌, ◌++◌, if◌then◌else◌, leb, Option-cases, inl, inr,
}
use levshell.Bus.Events.{Event}
use levshell.SessionTimer.{
  Phase, idle, work, break_, wire, is_idle, SessionTimer, Output, event, widget, Outcome,
  after_interval, publish_widget, started, enter, end_current, end_and_enter, advance, set_paused,
  start, stop, handle_command, advance_one_second, resolve_toggle, on_event,
}

-- The interval that is open, by its kind.
abbrev pub open_interval : Phase → Option Text
open_interval idle = none
open_interval p = some (wire p)

abbrev pub starts : Option Text → Text → Option (Option Text)
starts none kind = some (some kind)
starts (some old) kind = none

abbrev pub ends : Option Text → Text → Option (Option Text)
ends none kind = none
ends (some old) kind = if text_eq old kind then some none else none

-- A listener that holds the interval that is open: `none` at an interval that starts inside
-- another, and at an end that is not the end of the open one.
abbrev pub hear_one : {U : Type 0} → Option Text → Output U → Option (Option Text)
hear_one o (widget w) = some o
hear_one o (event (Event.focus_session_started kind project secs)) = starts o kind
hear_one o (event (Event.focus_session_ended kind project secs)) = ends o kind
hear_one o (event e) = some o

abbrev pub hear : {U : Type 0} → Option Text → List (Output U) → Option (Option Text)
hear o [] = some o
hear o (out ∷ outs) = elim (hear_one o out) [ none ↦ none | some o' ↦ hear o' outs ]

-- What a call publishes takes the listener from the old interval to the new one.
abbrev pub IsHeard : {U : Type 0} → SessionTimer → Outcome U → Type 0
IsHeard t r = hear (open_interval t.phase) r.1 ≡ some (open_interval r.0.phase)

module _ (U : Type 0) where
  branch :
      (t : SessionTimer) (b : Bool) (x y : Outcome U)
      → IsHeard t x
      → IsHeard t y
      → IsHeard t (if b then x else y)
  branch t true x y hx hy = hx
  branch t false x y hx hy = hy

  set_paused-IsHeard : (t : SessionTimer) (b : Bool) → IsHeard {U = U} t (set_paused t b)
  unfolding set_paused publish_widget
  set_paused-IsHeard t b = refl

  -- A move to `next` from the phase `p`.
  end_and_enter-IsHeard :
      (t : SessionTimer) (p next : Phase)
      → is_idle p ≡ false
      → IsHeard {U = U} (record t { phase = p }) (end_and_enter (record t { phase = p }) next)
  unfolding end_and_enter end_current enter started publish_widget after_interval wire text_eq
  end_and_enter-IsHeard t idle next h = cc
  end_and_enter-IsHeard t work idle h = refl
  end_and_enter-IsHeard t work work h = refl
  end_and_enter-IsHeard t work break_ h = refl
  end_and_enter-IsHeard t break_ idle h = refl
  end_and_enter-IsHeard t break_ work h = refl
  end_and_enter-IsHeard t break_ break_ h = refl

  advance-IsHeard :
      (t : SessionTimer) (p : Phase)
      → IsHeard {U = U} (record t { phase = p }) (advance (record t { phase = p }))
  unfolding advance
  advance-IsHeard t idle = refl
  advance-IsHeard t work = end_and_enter-IsHeard t work break_ refl
  advance-IsHeard t break_ = end_and_enter-IsHeard t break_ work refl

  start-IsHeard :
      (t : SessionTimer) (p : Phase)
      → IsHeard {U = U} (record t { phase = p }) (start (record t { phase = p }))
  unfolding start enter started publish_widget wire
  start-IsHeard t idle = refl
  start-IsHeard t work =
      branch (record t { phase = work }) t.paused _ _
        (set_paused-IsHeard (record t { phase = work }) false) refl
  start-IsHeard t break_ =
      branch (record t { phase = break_ }) t.paused _ _
        (set_paused-IsHeard (record t { phase = break_ }) false) refl

  stop-IsHeard :
      (t : SessionTimer) (p : Phase)
      → IsHeard {U = U} (record t { phase = p }) (stop (record t { phase = p }))
  unfolding stop end_current enter started publish_widget after_interval wire text_eq
  stop-IsHeard t idle = refl
  stop-IsHeard t work = refl
  stop-IsHeard t break_ = refl

  handle_command-IsHeard :
      (t : SessionTimer) (action : Text) → IsHeard {U = U} t (handle_command t action)
  unfolding handle_command
  handle_command-IsHeard t action =
      branch t (text_eq action (bytes "start")) _ _ (start-IsHeard t t.phase) (
        branch t (text_eq action (bytes "pause")) _ _
          (branch t (is_idle t.phase || t.paused) _ _ refl (set_paused-IsHeard t true))
          (branch t (text_eq action (bytes "resume")) _ _
            (branch t t.paused _ _ (set_paused-IsHeard t false) refl)
            (branch t (text_eq action (bytes "stop")) _ _ (stop-IsHeard t t.phase)
              (branch t (text_eq action (bytes "skip")) _ _ (advance-IsHeard t t.phase) refl))))

  advance_one_second-IsHeard : (t : SessionTimer) → IsHeard {U = U} t (advance_one_second t)
  unfolding advance_one_second publish_widget
  advance_one_second-IsHeard t = branch t (is_idle t.phase || t.paused) _ _ refl (
      branch t (leb t.planned_secs ((t.elapsed_secs + 1) % 2 ^ 64)) _ _
        (advance-IsHeard (record t { elapsed_secs = (t.elapsed_secs + 1) % 2 ^ 64 }) t.phase) refl)

  on_event-IsHeard : (t : SessionTimer) (e : Event U) → IsHeard t (on_event t e)
  unfolding on_event
  on_event-IsHeard t (Event.session_timer_command action) = handle_command-IsHeard t action
  on_event-IsHeard t (Event.workspace_changed name focused) = refl
  on_event-IsHeard t (Event.widget_action_received id action data_) =
      branch t (text_eq id (bytes "session-timer") && text_eq action (bytes "toggle")) _ _
        (handle_command-IsHeard t (resolve_toggle t)) refl
  on_event-IsHeard t _ = refl

  hear-append :
      (o o' : Option Text) (xs ys : List (Output U))
      → hear o xs ≡ some o'
      → hear o (xs ++ ys) ≡ hear o' ys
  hear-append o o' [] ys h = let same : o ≡ o' = cc in ap (λ x. hear x ys) same
  hear-append o o' (x ∷ xs) ys h = elim (Option-cases (hear_one o x)) [
    | inl e ↦ let no : none ≡ some o' = rw (e, hear) at h in cc
    | inr (o1, e) ↦ rw (e, hear) (hear-append o1 o' xs ys (rw (e, hear) at h))
  ]

-- A second that passes, or an event from the bus.
abbrev pub call : {U : Type 0} → SessionTimer → Option (Event U) → Outcome U
call t none = advance_one_second t
call t (some e) = on_event t e

abbrev pub run : {U : Type 0} → SessionTimer → List (Option (Event U)) → Outcome U
run t [] = (t, [])
run t (c ∷ cs) = let first = call t c in let rest = run first.0 cs in (rest.0, first.1 ++ rest.1)

-- Over every run of seconds and of events from the bus, the timer's own events pair up: an interval
-- starts only when none is open and ends only as the one that is open, and the open interval is the
-- timer's phase.
pub run-IsHeard :
    {U : Type 0} (t : SessionTimer) (cs : List (Option (Event U))) → IsHeard t (run t cs)
run-IsHeard t [] = refl
run-IsHeard t (none ∷ cs) =
    hear-append _ (open_interval t.phase) (open_interval (advance_one_second t).0.phase)
      (advance_one_second t).1 (run (advance_one_second t).0 cs).1 (advance_one_second-IsHeard _ t)
    ∙ run-IsHeard (advance_one_second t).0 cs
run-IsHeard t (some e ∷ cs) =
    hear-append _ (open_interval t.phase) (open_interval (on_event t e).0.phase) (on_event t e).1
      (run (on_event t e).0 cs).1 (on_event-IsHeard _ t e)
    ∙ run-IsHeard (on_event t e).0 cs
