-- ===== src/Examples/BusRuns.antt =====
-- A run of crates/levshell-core/src/bus.rs over channels that hold their capacity and their queue.
use levshell.Prelude.{ℕ, bytes, true, List, [], ◌∷◌, ◌++◌, length, if◌then◌else◌, ltb}
use levshell.Bus.Events.{Event, EventKind}
use levshell.Bus.{TrySend, sent, full, Subscriber}

abbrev Channel : Type 0
Channel = ℕ × List (Event ℕ)

abbrev try_send : Channel → Event ℕ → TrySend × Channel
try_send (capacity, queue) e =
    if ltb (length queue) capacity
    then (sent, (capacity, queue ++ e ∷ []))
    else (full, (capacity, queue))

abbrev queued : Channel → List (Event ℕ)
queued c = c.1

abbrev palette : Subscriber Channel
palette = record {
  name = bytes "palette";
  kinds = EventKind.process_list_requested ∷ [];
  tx = (1, []);
  dropped = 0;
}

-- The palette after two requests for the list of processes: one is queued, one dropped.
abbrev lagging : Subscriber Channel
lagging = record palette { tx = (1, Event.process_list_requested ∷ []); dropped = 1 }

abbrev clock : Subscriber Channel
clock = record { name = bytes "clock"; kinds = []; tx = (4, []); dropped = 0 }

abbrev requests : List (Event ℕ)
requests =
    Event.process_list_requested
    ∷ Event.presentation_mode_changed true
    ∷ Event.process_list_requested
    ∷ []
