-- ===== src/Notifications/Focus.antt =====
-- crates/levshell-modules/src/notifications.rs behind session_timer.rs, over the bus.
use levshell.Prelude.{
  ◌≡◌, refl, ◌∙◌, ap, sym, Text, bytes, text_eq, Bool, true, false, Option, none, some, List, [],
  ◌∷◌, arith, Option-cases, inl, inr,
}
use levshell.Bus.Events.{Event}
use levshell.SessionTimer.{Phase, idle, work, break_, wire, SessionTimer, Output, event, widget}
use levshell.SessionTimer.Pairs.{open_interval, hear_one, hear, run, run-IsHeard}
use levshell.Notifications.{NotificationsModule, on_event}

-- The module after the events among what the timer published.
abbrev pub absorb : {U : Type 0} → NotificationsModule → List (Output U) → NotificationsModule
absorb m [] = m
absorb m (event e ∷ outs) = absorb (on_event m e).0 outs
absorb m (widget w ∷ outs) = absorb m outs

abbrev pub is_work : Option Text → Bool
is_work none = false
is_work (some kind) = text_eq kind (bytes "work")

module _ {U : Type 0} where
  on_event-hear_one :
      (m : NotificationsModule) (o o' : Option Text) (e : Event U)
      → m.focus_work ≡ is_work o
      → hear_one o (event e) ≡ some o'
      → (on_event m e).0.focus_work ≡ is_work o'
  unfolding on_event
  on_event-hear_one m none o' (Event.focus_session_started k p s) h e = ground arith
  on_event-hear_one m (some old) o' (Event.focus_session_started k p s) h e = ground arith
  on_event-hear_one m none o' (Event.focus_session_ended k p s) h e = ground arith
  on_event-hear_one m (some old) o' (Event.focus_session_ended k p s) h e = ground arith
  on_event-hear_one m o o' (Event.nudge_delivered p k t) h e = ground arith
  on_event-hear_one m o o' (Event.notify_requested t b u) h e = ground arith
  on_event-hear_one m o o' _ h e = ground arith

  absorb-hear :
      (outs : List (Output U)) (m : NotificationsModule) (o o' : Option Text)
      → m.focus_work ≡ is_work o
      → hear o outs ≡ some o'
      → (absorb m outs).focus_work ≡ is_work o'
  absorb-hear [] m o o' h e = let same : o ≡ o' = cc in h ∙ ap is_work same
  absorb-hear (event ev ∷ outs) m o o' h e = elim (Option-cases (hear_one o (event ev))) [
    | inl refused ↦ let no : none ≡ some o' = rw (refused, hear) at e in cc
    | inr (o1, heard) ↦
        absorb-hear outs (on_event m ev).0 o1 o' (on_event-hear_one m o o1 ev h heard)
          (rw (heard, hear) at e)
  ]
  absorb-hear (widget w ∷ outs) m o o' h e = absorb-hear outs m o o' h e

abbrev pub is_at_work : Phase → Bool
is_at_work work = true
is_at_work _ = false

is_work-open_interval : (p : Phase) → is_work (open_interval p) ≡ is_at_work p
unfolding wire text_eq
is_work-open_interval idle = refl
is_work-open_interval work = refl
is_work-open_interval break_ = refl

-- The two modules on one bus: whatever the timer is told and however long it runs, the
-- notifications are quiet for a work session exactly while the timer is in one, if they were so
-- before. A pause makes no difference.
pub absorb-run :
    {U : Type 0} (t : SessionTimer) (m : NotificationsModule) (cs : List (Option (Event U)))
    → m.focus_work ≡ is_at_work t.phase
    → (absorb m (run t cs).1).focus_work ≡ is_at_work (run t cs).0.phase
absorb-run t m cs h =
    absorb-hear (run t cs).1 m (open_interval t.phase) (open_interval (run t cs).0.phase)
      (h ∙ sym (is_work-open_interval t.phase)) (run-IsHeard t cs)
    ∙ is_work-open_interval (run t cs).0.phase
