-- ===== src/Escalation/Climb.antt =====
-- How a widget climbs to and falls from a level in crates/levshell-modules/src/escalation.rs.
use levshell.Prelude.{ℕ, suc, ◌+◌, ◌≡◌, refl, ◌<◌, ◌↔◌, true, arith, min, zero}
use levshell.Escalation.{
  EscalationLevel, ambient, aware, attention, critical, rank, EscalationTracker, step_up, step,
}

-- The tracker after `n` ticks with the same raw level.
abbrev pub hold : ℕ → EscalationTracker → EscalationLevel → EscalationTracker
hold zero t raw = t
hold (suc n) t raw = hold n (step t raw).0 raw

rank-step :
    (c raw : EscalationLevel)
    → rank (step (record { current = c }) raw).0.current ≡ min (rank raw) (suc (rank c))
unfolding step step_up
rank-step ambient raw = ground arith
rank-step aware raw = ground arith
rank-step attention raw = ground arith
rank-step critical raw = ground arith

alert_iff :
    (c raw : EscalationLevel)
    → ((step (record { current = c }) raw).1.entered_critical ≡ true) ↔ (
        (rank c < rank critical)
        × (rank (step (record { current = c }) raw).0.current ≡ rank critical))
unfolding step step_up
alert_iff ambient raw = ground arith
alert_iff aware raw = ground arith
alert_iff attention raw = ground arith
alert_iff critical raw = ground arith

level_eq :
    (c raw : EscalationLevel)
    → (step (record { current = c }) raw).1.level ≡ (step (record { current = c }) raw).0.current
unfolding step
level_eq c raw = refl

-- A tick moves the widget to the raw level, but up by one level at most. The level published is
-- the one kept, and the alert is raised exactly when a level below critical gives way to critical.
pub step_lem :
    (t : EscalationTracker) (raw : EscalationLevel)
    → (rank (step t raw).0.current ≡ min (rank raw) (suc (rank t.current)))
      × ((step t raw).1.level ≡ (step t raw).0.current)
      × (((step t raw).1.entered_critical ≡ true)
          ↔ ((rank t.current < rank critical) × (rank (step t raw).0.current ≡ rank critical)))
step_lem t raw = (rank-step t.current raw, level_eq t.current raw, alert_iff t.current raw)

-- After one or more ticks with the same raw level the widget is at that level, or has climbed one
-- level for each tick if that is lower: a fall takes one tick and a climb as many as the levels.
pub hold-climbs :
    (n : ℕ) (t : EscalationTracker) (raw : EscalationLevel)
    → rank (hold (suc n) t raw).current ≡ min (rank raw) (rank t.current + suc n)
hold-climbs zero t raw = omega (arith, rank-step t.current raw)
hold-climbs (suc n) t raw = omega (arith, rank-step t.current raw, hold-climbs n (step t raw).0 raw)
