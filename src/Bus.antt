-- ===== src/Bus.antt =====
-- crates/levshell-core/src/bus.rs: the publish and subscribe bus. The channels of tokio are a
-- parameter: `S` is the state of a channel, which both of its ends share, `channel` makes one of
-- a given capacity, and `try_send` offers it an event. The logging is left out.
pub mod Events
pub mod Accounts
use levshell.Prelude.{
  ℕ, ◌+◌, ◌-◌, ◌^◌, min, max, Text, Bool, Option, none, some, List, [], ◌∷◌, ◌++◌, any_of, map,
  length, if◌then◌else◌,
}
use levshell.Bus.Events.{Event, EventKind, kind, kind_eq}

-- The results of `mpsc::Sender::try_send`.
pub data TrySend : Type 0 where
  sent full closed : TrySend

pub record Subscriber (S : Type 0) : Type 0 where
  pub name : Text
  pub kinds : List EventKind
  pub tx : S
  pub dropped : ℕ

pub record EventBus (S : Type 0) : Type 0 where
  pub subscribers : List (Subscriber S)

pub record SubscriberStats : Type 0 where
  pub name : Text
  pub kinds : List EventKind
  pub dropped : ℕ

abbrev pub u64_max : ℕ
u64_max = 2 ^ 64 - 1

-- `sub.kinds.contains(&kind)`.
unfoldable pub wants : EventKind → List EventKind → Bool
wants k kinds = any_of (λ wanted. kind_eq wanted k) kinds

-- What becomes of the subscriber after the offer; `none`: it is removed.
abbrev pub after_send : {S : Type 0} → Subscriber S → TrySend × S → Option (Subscriber S)
after_send sub (sent, tx) = some (record sub { tx = tx })
after_send sub (full, tx) = some (record sub { tx = tx; dropped = min u64_max (sub.dropped + 1) })
after_send sub (closed, tx) = none

-- `retain_mut`, keeping what the closure leaves.
abbrev pub keep : {A : Type 0} → Option A → List A → List A
keep none rest = rest
keep (some a) rest = a ∷ rest

module _ {U S : Type 0} (try_send : S → Event U → TrySend × S) where
  unfoldable pub offer : Event U → Subscriber S → Option (Subscriber S)
  offer event sub =
      if wants (kind event) sub.kinds then after_send sub (try_send sub.tx event) else some sub

  unfoldable pub publish_to : Event U → List (Subscriber S) → List (Subscriber S)
  publish_to event [] = []
  publish_to event (sub ∷ subs) = keep (offer event sub) (publish_to event subs)

  unfoldable pub publish : EventBus S → Event U → EventBus S
  publish bus event = record { subscribers = publish_to event bus.subscribers }

module _ {S : Type 0} where
  unfoldable pub new : EventBus S
  new = record { subscribers = [] }

  unfoldable pub subscribe : (ℕ → S) → EventBus S → Text → List EventKind → ℕ → EventBus S
  subscribe channel bus name kinds capacity = record {
    subscribers =
        bus.subscribers
        ++ record { name = name; kinds = kinds; tx = channel (max capacity 1); dropped = 0 } ∷ [];
  }

  unfoldable pub stats : EventBus S → List SubscriberStats
  stats bus =
      map (λ s. record { name = s.name; kinds = s.kinds; dropped = s.dropped }) bus.subscribers

  unfoldable pub subscriber_count : EventBus S → ℕ
  subscriber_count bus = length bus.subscribers
