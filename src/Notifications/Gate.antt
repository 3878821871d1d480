-- ===== src/Notifications/Gate.antt =====
-- What quiet mode lets through in crates/levshell-modules/src/notifications.rs.
use levshell.Prelude.{◌≡◌, bytes, text_eq, Bool, true, false, if◌then◌else◌, filter_by, arith}
use levshell.Bus.Events.{Event}
use levshell.Notifications.{
  NotificationsModule, Sent, shell_critical, shell_nudge, send_critical, send_nudge, send_notify,
  quiet, on_event, new,
}

-- A critical escalation, or a notification that the sender called critical.
abbrev pub is_critical : Sent → Bool
is_critical (shell_critical widget_id title body) = true
is_critical (shell_nudge kind title) = false
is_critical (send_critical widget_id title body) = true
is_critical (send_nudge kind title) = false
is_critical (send_notify urgency title body) = text_eq urgency (bytes "critical")

-- In quiet mode the module sends, of what it would send otherwise, exactly what is critical, in the
-- same order; out of quiet mode it sends all of it.
pub on_event-quiet :
    {U : Type 0} (m : NotificationsModule) (e : Event U)
    → (on_event m e).1
      ≡ (if quiet m then filter_by is_critical (on_event new e).1 else (on_event new e).1)
unfolding on_event new filter_by
on_event-quiet m (Event.critical_escalation w t b) = ground arith
on_event-quiet m (Event.nudge_delivered p k t) = ground arith
on_event-quiet m (Event.notify_requested t b u) = ground arith
on_event-quiet m (Event.presentation_mode_changed on) = ground arith
on_event-quiet m _ = ground arith
