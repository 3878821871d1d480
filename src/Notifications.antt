-- ===== src/Notifications.antt =====
-- crates/levshell-modules/src/notifications.rs: the bridge from the bus to the shell and to the
-- desktop's notification daemon. What the module offers to either is its output: the program logs a
-- failure to deliver and goes on, so that a result changes nothing here.
pub mod Gate
pub mod Focus
use levshell.Prelude.{
  Text, bytes, text_eq, Bool, true, false, not, ◌&&◌, ◌||◌, Option, none, some, List, [], ◌∷◌, ◌++◌,
  if◌then◌else◌,
}
use levshell.Bus.Events.{Event}

pub record NotificationsModule : Type 0 where
  pub presentation : Bool
  pub focus_work : Bool

-- An offer to the shell, or a call of the NotificationSender.
pub data Sent : Type 0 where
  shell_critical : (widget_id title body : Text) → Sent
  shell_nudge : (kind title : Text) → Sent
  send_critical : (widget_id title body : Text) → Sent
  send_nudge : (kind title : Text) → Sent
  send_notify : (urgency title body : Text) → Sent

unfoldable pub new : NotificationsModule
new = record { presentation = false; focus_work = false }

abbrev pub quiet : NotificationsModule → Bool
quiet m = m.presentation || m.focus_work

module _ {U : Type 0} where
  unfoldable pub on_event : NotificationsModule → Event U → NotificationsModule × List Sent
  on_event m (Event.critical_escalation widget_id title body) =
      (m, shell_critical widget_id title body ∷ send_critical widget_id title body ∷ [])
  on_event m (Event.nudge_delivered project_id kind title) =
      if quiet m then (m, []) else (m, shell_nudge kind title ∷ send_nudge kind title ∷ [])
  on_event m (Event.notify_requested title body urgency) =
      if quiet m && not (text_eq urgency (bytes "critical"))
      then (m, [])
      else (m, send_notify urgency title body ∷ [])
  on_event m (Event.presentation_mode_changed on) = (record m { presentation = on }, [])
  on_event m (Event.focus_session_started kind project planned_secs) =
      (record m { focus_work = text_eq kind (bytes "work") }, [])
  on_event m (Event.focus_session_ended kind project actual_secs) =
      (record m { focus_work = false }, [])
  on_event m _ = (m, [])

-- `notify_rust::Urgency`.
pub data Urgency : Type 0 where
  low normal critical : Urgency

-- What NotifyRustSender asks the desktop to show.
pub record Notification : Type 0 where
  pub summary : Text
  pub body : Text
  pub urgency : Urgency

unfoldable pub urgency_of : Text → Urgency
urgency_of u =
    if text_eq u (bytes "low")
    then low
    else if text_eq u (bytes "critical")
    then critical
    else normal

unfoldable pub show : Sent → Option Notification
show (shell_critical widget_id title body) = none
show (shell_nudge kind title) = none
show (send_critical widget_id title body) =
    some (record { summary = title; body = body; urgency = critical })
show (send_nudge kind title) = some (record {
  summary = title;
  body = bytes "Ideation " ++ 194 ∷ 183 ∷ bytes " " ++ kind;
  urgency = normal;
})
show (send_notify urgency title body) =
    some (record { summary = title; body = body; urgency = urgency_of urgency })
