-- ===== src/Examples/TrackerRuns.antt =====
-- Runs of crates/levshell-modules/src/focus/tracker.rs and escalation.rs.
use levshell.Prelude.{
  ◌+◌, ◌<◌, ◌≡◌, refl, insert, remove, any_of, filter_by, text_eq, ◌↔◌, Text, bytes, lookup, true,
  none, some, [], ◌∷◌, if◌then◌else◌, All, min,
}
use levshell.Focus.{
  activating, active, activate, deactivate, new, visit_all, drop_all, stale, TriggerInput,
  FocusModeTracker, or_inactive, advance, is_seen, is_engaged, tick, phase,
}
use levshell.Focus.Follow.{follow, tick-follows}
use levshell.Focus.Profile.{alone, phase-tick}
use levshell.Focus.Reached.{Ticks, run}
use levshell.Focus.Dwell.{Justified, tick-AllJustified}
use levshell.Escalation.{EscalationTracker, ambient, attention, critical, rank, step}
use levshell.Escalation.Climb.{hold, step_lem, hold-climbs}

abbrev writing : Text
writing = bytes "writing"

abbrev on : TriggerInput
on = record { profile = writing; predicate = true; dwell = 30; exit_dwell = 60 }

-- Writing is about to be activated; reading, which is active, is no longer configured.
abbrev tracker : FocusModeTracker
tracker = record { phases = (writing, activating 100) ∷ (bytes "reading", active) ∷ [] }

tick-follows_example :
    follow
      (bytes "reading")
      (is_engaged (lookup (bytes "reading") tracker.phases))
      (tick tracker (on ∷ []) 130).1
    ≡ is_engaged (lookup (bytes "reading") (tick tracker (on ∷ []) 130).0.phases)
tick-follows_example = tick-follows tracker (on ∷ []) 130 (bytes "reading")

phase-tick_example : phase (tick tracker (on ∷ []) 130).0 writing ≡ (
    if is_seen (on ∷ []) writing
    then some (alone writing (or_inactive (phase tracker writing)) (on ∷ []) 130)
    else none)
phase-tick_example = phase-tick tracker (on ∷ []) 130 writing

-- Writing asks at 100; reading is active, and then no longer configured.
abbrev reading_on : TriggerInput
reading_on = record { profile = bytes "reading"; predicate = true; dwell = 0; exit_dwell = 60 }

abbrev morning : Ticks
morning = (on ∷ reading_on ∷ [], 100) ∷ (reading_on ∷ [], 90) ∷ []

tick-AllJustified_example :
    All (Justified morning (on ∷ []) 130) (tick (run morning) (on ∷ []) 130).1
tick-AllJustified_example = tick-AllJustified morning (on ∷ []) 130

noon : (tick (run morning) (on ∷ []) 130).1 ≡ activate writing ∷ deactivate (bytes "reading") ∷ []
unfolding tick run new visit_all drop_all stale is_seen any_of filter_by advance lookup insert
    remove text_eq
noon = refl

abbrev calm : EscalationTracker
calm = record { current = attention }

step_lem_example :
    (rank (step calm critical).0.current ≡ min 3 3)
    × ((step calm critical).1.level ≡ (step calm critical).0.current)
    × (((step calm critical).1.entered_critical ≡ true)
        ↔ ((2 < 3) × (rank (step calm critical).0.current ≡ 3)))
step_lem_example = step_lem calm critical

hold-climbs_example : rank (hold 3 (record { current = ambient }) critical).current ≡ min 3 (0 + 3)
hold-climbs_example = hold-climbs 2 (record { current = ambient }) critical
