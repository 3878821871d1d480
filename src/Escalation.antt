-- ===== src/Escalation.antt =====
-- crates/levshell-modules/src/escalation.rs, with the levels of crates/levshell-ipc/src/messages.rs.
pub mod Climb
use levshell.Prelude.{ℕ, Bool, not, ◌&&◌, if◌then◌else◌, ltb, ◌==◌}

pub data EscalationLevel : Type 0 where
  ambient aware attention critical : EscalationLevel

-- The derived `Ord` compares the variants in the order of their declaration.
abbrev pub rank : EscalationLevel → ℕ
rank ambient = 0
rank aware = 1
rank attention = 2
rank critical = 3

pub record EscalationTracker : Type 0 where
  pub current : EscalationLevel

pub record TickOutcome : Type 0 where
  pub level : EscalationLevel
  pub entered_critical : Bool

unfoldable pub new : EscalationTracker
new = record { current = ambient }

unfoldable pub step_up : EscalationLevel → EscalationLevel
step_up ambient = aware
step_up aware = attention
step_up attention = critical
step_up critical = critical

unfoldable pub step : EscalationTracker → EscalationLevel → EscalationTracker × TickOutcome
step t raw =
    let next = (if ltb (rank t.current) (rank raw) then step_up t.current else raw) in
    (
      record { current = next },
      record {
        level = next;
        entered_critical = rank next == rank critical && not (rank t.current == rank critical);
      },
    )
