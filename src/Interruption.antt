-- ===== src/Interruption.antt =====
-- crates/levshell-modules/src/interruption/mod.rs: how long the user was away from a workspace. An
-- Instant and a Duration count nanoseconds. What the module publishes is its output.
pub mod Away
use levshell.Prelude.{
  ℕ, ◌*◌, ◌-◌, ◌/◌, ◌^◌, Text, bytes, text_eq, Assoc, lookup, insert, Bool, true, false, Option,
  none, some, List, [], ◌∷◌, if◌then◌else◌, ltb,
}
use levshell.Rules.{ℤ, pos}
use levshell.Bus.Events.{Event}

pub record InterruptionState : Type 0 where
  pub workspace : Text
  pub away_seconds : ℕ
  pub shown_at_ms : ℤ

unfoldable pub empty_state : InterruptionState
empty_state = record { workspace = []; away_seconds = 0; shown_at_ms = pos 0 }

pub record InterruptionTracker : Type 0 where
  pub min_away_secs : ℕ
  pub current_workspace : Option Text
  pub last_left_at : Assoc ℕ

unfoldable pub new : ℕ → InterruptionTracker
new min_away_secs = record {
  min_away_secs = min_away_secs;
  current_workspace = none;
  last_left_at = [];
}

unfoldable pub with_min_away_secs : InterruptionTracker → ℕ → InterruptionTracker
with_min_away_secs t secs = record t { min_away_secs = secs }

-- `MIN_AWAY_SECS`.
abbrev pub min_away : ℕ
min_away = 120

abbrev pub from_secs : ℕ → ℕ
from_secs s = s * 1000000000

abbrev pub as_secs : ℕ → ℕ
as_secs d = d / 1000000000

-- `current_workspace.as_deref() == Some(new_ws)`.
abbrev pub is_current : Option Text → Text → Bool
is_current none ws = false
is_current (some current) ws = text_eq current ws

-- The outgoing workspace is marked as just left.
abbrev pub mark_left : Option Text → ℕ → Assoc ℕ → Assoc ℕ
mark_left none now left = left
mark_left (some prev) now left = insert prev now left

-- What is shown after an absence that began at the given time, if any is known.
unfoldable pub report : ℕ → Text → ℕ → ℤ → Option ℕ → Option InterruptionState
report min_away_secs ws now shown_at_ms none = none
report min_away_secs ws now shown_at_ms (some t) =
    if ltb (now - t) (from_secs min_away_secs)
    then none
    else some
        (record { workspace = ws; away_seconds = as_secs (now - t); shown_at_ms = shown_at_ms })

unfoldable pub apply_focus :
    InterruptionTracker → Text → ℕ → ℤ → InterruptionTracker × Option InterruptionState
apply_focus t new_ws now shown_at_ms =
    let left = mark_left t.current_workspace now t.last_left_at in
    if is_current t.current_workspace new_ws then (t, none) else (
      record t { current_workspace = some new_ws; last_left_at = left },
      report t.min_away_secs new_ws now shown_at_ms (lookup new_ws left),
    )

-- `on_event` at the time `now`, on the wall clock `shown_at_ms`.
unfoldable pub on_event :
    {U : Type 0}
    → InterruptionTracker
    → Event U
    → ℕ
    → ℤ
    → InterruptionTracker × Option InterruptionState
on_event t (Event.workspace_changed name focused) now shown_at_ms =
    apply_focus t name now shown_at_ms
on_event t _ now shown_at_ms = (t, none)
