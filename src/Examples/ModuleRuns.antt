-- ===== src/Examples/ModuleRuns.antt =====
-- Runs of crates/levshell-modules/src: notifications.rs, interruption and warmup.
use levshell.Prelude.{
  ℕ, ◌-◌, ◌/◌, ◌≡◌, refl, bytes, Option, none, some, List, [], ◌∷◌, filter_by, if◌then◌else◌, true,
  false,
}
use levshell.Rules.{ℤ, pos}
use levshell.Bus.Events.{Event}
use levshell.SessionTimer.{default_config}
use levshell.SessionTimer.{new as new_timer}
use levshell.SessionTimer.Pairs.{run}
use levshell.Notifications.{NotificationsModule, new, quiet, on_event}
use levshell.Notifications.Gate.{is_critical, on_event-quiet}
use levshell.Notifications.Focus.{absorb, is_at_work, absorb-run}
use levshell.Interruption.{apply_focus}
use levshell.Interruption.Away.{History, tracked, Reported, apply_focus-Reported}
use levshell.Warmup.{WarmupConfig, with_config}
use levshell.Warmup.Apart.{Call, activity, ctl, AllDue, with_config-AllDue}

abbrev presenting : NotificationsModule
presenting = record { presentation = true; focus_work = false }

abbrev critical_notice : Event ℕ
critical_notice = Event.notify_requested (bytes "disk") (bytes "full") (bytes "critical")

on_event-quiet_example : (on_event presenting critical_notice).1 ≡ (
    if quiet presenting
    then filter_by is_critical (on_event new critical_notice).1
    else (on_event new critical_notice).1)
on_event-quiet_example = on_event-quiet presenting critical_notice

abbrev commands : List (Option (Event ℕ))
commands =
    some (Event.session_timer_command (bytes "start"))
    ∷ none
    ∷ some (Event.session_timer_command (bytes "pause"))
    ∷ some (Event.session_timer_command (bytes "skip"))
    ∷ []

abbrev calm : NotificationsModule
calm = record { presentation = false; focus_work = false }

absorb-run_example :
    (absorb calm (run (new_timer default_config) commands).1).focus_work
    ≡ is_at_work (run (new_timer default_config) commands).0.phase
unfolding new_timer
absorb-run_example = absorb-run (new_timer default_config) calm commands refl

abbrev past : History
past = (bytes "mail", 400000000000) ∷ (bytes "thesis", 100000000000) ∷ []

apply_focus-Reported_example :
    Reported 60 past
      (bytes "thesis")
      500000000000
      (pos 500000000000)
      (apply_focus (tracked 60 pos past) (bytes "thesis") 500000000000 (pos 500000000000)).1
apply_focus-Reported_example = apply_focus-Reported 60 pos past (bytes "thesis") 500000000000

-- Times of day in seconds.
abbrev seconds : ℕ → ℕ → ℤ
seconds a b = pos (a - b)

abbrev mornings : List (Call ℕ)
mornings =
    activity 0 30000 true
    ∷ activity 60000000000 30060 true
    ∷ ctl (bytes "open") 30100 false
    ∷ activity 90000000000000 120000 true
    ∷ []

abbrev daily : WarmupConfig
daily = record { enabled = true; gap_secs = 14400; calendar_day_trigger = false }

with_config-AllDue_example :
    AllDue (λ t. t / 86400) seconds (with_config daily (some 1000)) none (some 1000) mornings
with_config-AllDue_example = with_config-AllDue (λ t. t / 86400) seconds daily (some 1000) mornings
