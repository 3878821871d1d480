-- ===== src/Examples/TimerRuns.antt =====
-- A run of crates/levshell-modules/src/session_timer.rs: started, paused by the bar and stopped.
use levshell.Prelude.{ℕ, bytes, Option, none, some, List, [], ◌∷◌}
use levshell.Bus.Events.{Event}
use levshell.SessionTimer.{new, default_config}
use levshell.SessionTimer.Pairs.{IsHeard, run, run-IsHeard}

abbrev calls : List (Option (Event ℕ))
calls =
    some (Event.session_timer_command (bytes "start"))
    ∷ none
    ∷ some (Event.workspace_changed (bytes "thesis") none)
    ∷ some (Event.widget_action_received (bytes "session-timer") (bytes "toggle") [])
    ∷ some (Event.session_timer_command (bytes "skip"))
    ∷ some (Event.session_timer_command (bytes "stop"))
    ∷ []

run-IsHeard_example : IsHeard (new default_config) (run (new default_config) calls)
run-IsHeard_example = run-IsHeard (new default_config) calls
