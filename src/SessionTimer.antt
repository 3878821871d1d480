-- ===== src/SessionTimer.antt =====
-- crates/levshell-modules/src/session_timer.rs: the work and break intervals of a focus session.
-- What the module publishes is its output: events for the bus and states of its widget. The sums of
-- machine integers wrap, as they do in a release build. Reading the configuration is left out.
pub mod Pairs
use levshell.Prelude.{
  ℕ, ◌+◌, ◌*◌, ◌%◌, ◌^◌, max, Text, bytes, text_eq, Assoc, lookup, insert, Bool, true, false, not,
  ◌&&◌, ◌||◌, Option, none, some, List, [], ◌∷◌, ◌++◌, if◌then◌else◌, leb, ltb, ◌==◌,
}
use levshell.Bus.Events.{Event}

pub record SessionTimerConfig : Type 0 where
  pub work_minutes : ℕ
  pub break_minutes : ℕ
  pub long_break_minutes : ℕ
  pub intervals_until_long_break : ℕ

-- `SessionTimerConfig::default`.
abbrev pub default_config : SessionTimerConfig
default_config = record {
  work_minutes = 25;
  break_minutes = 5;
  long_break_minutes = 15;
  intervals_until_long_break = 4;
}

pub data Phase : Type 0 where
  idle work break_ : Phase

unfoldable pub wire : Phase → Text
wire idle = bytes "idle"
wire work = bytes "work"
wire break_ = bytes "break"

abbrev pub is_idle : Phase → Bool
is_idle idle = true
is_idle _ = false

pub record SessionTimer : Type 0 where
  pub cfg : SessionTimerConfig
  pub phase : Phase
  pub paused : Bool
  pub elapsed_secs : ℕ
  pub planned_secs : ℕ
  pub work_done : ℕ
  pub current_project : Option Text
  pub per_ws_secs : Assoc ℕ

pub record WidgetState : Type 0 where
  pub shown_phase : Text
  pub shown_paused : Bool
  pub shown_elapsed : ℕ
  pub shown_planned : ℕ
  pub work_intervals : ℕ

pub data Output (U : Type 0) : Type 0 where
  event : Event U → Output U
  widget : WidgetState → Output U

-- The module after a call, and what the call published.
abbrev pub Outcome : Type 0 → Type 0
Outcome U = SessionTimer × List (Output U)

unfoldable pub new : SessionTimerConfig → SessionTimer
new cfg = record {
  cfg = cfg;
  phase = idle;
  paused = false;
  elapsed_secs = 0;
  planned_secs = 0;
  work_done = 0;
  current_project = none;
  per_ws_secs = [];
}

unfoldable pub work_secs : SessionTimer → ℕ
work_secs t = max t.cfg.work_minutes 1 * 60 % 2 ^ 64

unfoldable pub break_secs : SessionTimer → ℕ
break_secs t =
    if ltb 0 t.work_done && t.work_done % max t.cfg.intervals_until_long_break 1 == 0
    then max t.cfg.long_break_minutes 1 * 60 % 2 ^ 64
    else max t.cfg.break_minutes 1 * 60 % 2 ^ 64

unfoldable pub planned : SessionTimer → Phase → ℕ
planned t idle = 0
planned t work = work_secs t
planned t break_ = break_secs t

abbrev pub or_zero : Option ℕ → ℕ
or_zero none = 0
or_zero (some n) = n

-- The work time booked on the workspace.
unfoldable pub book : Option Text → ℕ → Assoc ℕ → Assoc ℕ
book none actual secs = secs
book (some ws) actual secs = insert ws ((or_zero (lookup ws secs) + actual) % 2 ^ 64) secs

-- The change of state in `end_current`.
unfoldable pub after_interval : SessionTimer → ℕ → SessionTimer
after_interval t actual = elim t.phase [
  | work ↦ record t {
    work_done = (t.work_done + 1) % 2 ^ 32;
    per_ws_secs = book t.current_project actual t.per_ws_secs;
  }
  | _ ↦ t
]

-- What `toggle` means.
unfoldable pub resolve_toggle : SessionTimer → Text
resolve_toggle t =
    if is_idle t.phase then bytes "start" else if t.paused then bytes "resume" else bytes "pause"

module _ {U : Type 0} where
  unfoldable pub publish_widget : SessionTimer → Output U
  publish_widget t = widget (record {
    shown_phase = wire t.phase;
    shown_paused = t.paused;
    shown_elapsed = t.elapsed_secs;
    shown_planned = t.planned_secs;
    work_intervals = t.work_done;
  })

  unfoldable pub started : SessionTimer → List (Output U)
  started t =
      if is_idle t.phase
      then []
      else event (Event.focus_session_started (wire t.phase) t.current_project t.planned_secs) ∷ []

  unfoldable pub enter : SessionTimer → Phase → Outcome U
  enter t next =
      let t' = record t {
        phase = next;
        paused = false;
        elapsed_secs = 0;
        planned_secs = planned t next;
      } in
      (t', started t' ++ publish_widget t' ∷ [])

  unfoldable pub end_current : SessionTimer → ℕ → Outcome U
  end_current t actual = if is_idle t.phase then (t, []) else (
    after_interval t actual,
    event (Event.focus_session_ended (wire t.phase) t.current_project actual) ∷ [],
  )

  -- `end_current` and then `enter`.
  unfoldable pub end_and_enter : SessionTimer → Phase → Outcome U
  end_and_enter t next =
      let ended = end_current t t.elapsed_secs in
      let entered = enter ended.0 next in (entered.0, ended.1 ++ entered.1)

  unfoldable pub advance : SessionTimer → Outcome U
  advance t = elim t.phase [
    | idle ↦ (t, [])
    | work ↦ end_and_enter t break_
    | break_ ↦ end_and_enter t work
  ]

  unfoldable pub set_paused : SessionTimer → Bool → Outcome U
  set_paused t b = let t' = record t { paused = b } in (t', publish_widget t' ∷ [])

  unfoldable pub start : SessionTimer → Outcome U
  start t =
      if is_idle t.phase
      then enter (record t { work_done = 0 }) work
      else if t.paused
      then set_paused t false
      else (t, [])

  unfoldable pub stop : SessionTimer → Outcome U
  stop t =
      let ended = end_current t t.elapsed_secs in
      let entered = enter (record (ended.0) { work_done = 0 }) idle in
      if is_idle t.phase then (t, []) else (entered.0, ended.1 ++ entered.1)

  unfoldable pub handle_command : SessionTimer → Text → Outcome U
  handle_command t action =
      if text_eq action (bytes "start")
      then start t
      else if text_eq action (bytes "pause")
      then if is_idle t.phase || t.paused then (t, []) else set_paused t true
      else if text_eq action (bytes "resume")
      then if t.paused then set_paused t false else (t, [])
      else if text_eq action (bytes "stop")
      then stop t
      else if text_eq action (bytes "skip")
      then advance t
      else (t, [])

  unfoldable pub advance_one_second : SessionTimer → Outcome U
  advance_one_second t =
      let t' = record t { elapsed_secs = (t.elapsed_secs + 1) % 2 ^ 64 } in
      if is_idle t.phase || t.paused
      then (t, [])
      else if leb t'.planned_secs t'.elapsed_secs
      then advance t'
      else (t', publish_widget t' ∷ [])

  unfoldable pub on_event : SessionTimer → Event U → Outcome U
  on_event t (Event.session_timer_command action) = handle_command t action
  on_event t (Event.workspace_changed name focused) = (record t { current_project = some name }, [])
  on_event t (Event.widget_action_received widget_id action data_) =
      if text_eq widget_id (bytes "session-timer") && text_eq action (bytes "toggle")
      then handle_command t (resolve_toggle t)
      else (t, [])
  on_event t _ = (t, [])
