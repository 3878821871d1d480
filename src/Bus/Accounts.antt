-- ===== src/Bus/Accounts.antt =====
-- Where the events of crates/levshell-core/src/bus.rs end up.
use levshell.Prelude.{
  ℕ, suc, ◌+◌, ◌≤◌, ◌≡◌, Option, none, some, List, [], ◌∷◌, ◌++◌, length, if◌then◌else◌,
}
use levshell.Bus.Events.{Event, EventKind, kind}
use levshell.Bus.{TrySend, sent, full, closed, Subscriber, EventBus, wants, offer, publish}

module _ {U S : Type 0} (try_send : S → Event U → TrySend × S) where
  -- A run of publications.
  abbrev pub publish_all : EventBus S → List (Event U) → EventBus S
  publish_all bus [] = bus
  publish_all bus (e ∷ es) = publish_all (publish try_send bus e) es

  -- What one subscriber makes of it; `none` once its channel is found closed.
  abbrev pub follow_one : Subscriber S → List (Event U) → Option (Subscriber S)
  follow_one sub [] = some sub
  follow_one sub (e ∷ es) = elim (offer try_send e sub) [
    | none ↦ none
    | some sub' ↦ follow_one sub' es
  ]

  -- The number of events that the subscriber has asked for.
  abbrev pub matching : List EventKind → List (Event U) → ℕ
  matching kinds [] = 0
  matching kinds (e ∷ es) =
      if wants (kind e) kinds then suc (matching kinds es) else matching kinds es

  -- What `try_send` is documented to do: an event sent stands at the end of the queue, and a full
  -- channel stays as it is.
  abbrev pub SendsTo : TrySend × S → List (Event U) → Event U → (S → List (Event U)) → Type 0
  SendsTo (sent, s') q e queue = queue s' ≡ q ++ e ∷ []
  SendsTo (full, s') q e queue = queue s' ≡ q
  SendsTo (closed, s') q e queue = Unit

  abbrev pub IsQueue : (S → List (Event U)) → Type 0
  IsQueue queue = (s : S) (e : Event U) → SendsTo (try_send s e) (queue s) e queue

  -- What one offer does to the subscriber that it leaves.
  abbrev IsOffered : (S → List (Event U)) → Event U → Subscriber S → Subscriber S → Type 0
  IsOffered queue e sub sub' =
      (sub'.kinds ≡ sub.kinds)
      × (length (queue sub'.tx) + sub'.dropped
          ≡ length (queue sub.tx) + sub.dropped + matching sub.kinds (e ∷ []))
      × (sub'.dropped ≤ sub.dropped + matching sub.kinds (e ∷ []))
