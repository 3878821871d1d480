-- ===== src/Hysteresis.antt =====
-- crates/levshell-context/src/hysteresis.rs: the debouncer between the cascade and the bar.
-- An Instant and a Duration are natural numbers of one unit; their overflow, at which the program
-- panics, is left out. `observe` returns `none` where its `expect` would panic.
pub mod Widget
pub mod Machine
pub mod Changes
pub mod Runs
pub mod Timing
pub mod Invariant
use levshell.Prelude.{
  ℕ, ◌+◌, Text, Assoc, lookup, insert, remove, Bool, true, false, ◌&&◌, Option, none, some, List,
  [], ◌∷◌, if◌then◌else◌, leb,
}
use levshell.Prominence.{Prominence, prom_eq, prom_lt}

pub record HysteresisConfig : Type 0 where
  pub activation_delay : ℕ
  pub deactivation_delay : ℕ

pub record Transition : Type 0 where
  pub target : Prominence
  pub commit_at : ℕ

pub record Hysteresis : Type 0 where
  pub config : HysteresisConfig
  pub committed : Assoc Prominence
  pub pending : Assoc Transition

unfoldable pub new : HysteresisConfig → Hysteresis
new config = record { config = config; committed = []; pending = [] }

-- `cascade.get(widget) == Some(&target)`.
abbrev pub asks_for : Option Prominence → Prominence → Bool
asks_for none target = false
asks_for (some p) target = prom_eq p target

-- Whether a pending transition is due at `now` and the cascade still asks for its target.
abbrev pub is_ready : Option Prominence → ℕ → Transition → Bool
is_ready asked now t = leb t.commit_at now && asks_for asked t.target

-- The widgets to commit, in the order of the pending map.
unfoldable pub ready : Assoc Prominence → ℕ → Assoc Transition → List Text
ready cascade now [] = []
ready cascade now ((widget, t) ∷ pending) =
    if is_ready (lookup widget cascade) now t
    then widget ∷ ready cascade now pending
    else ready cascade now pending

-- The loop that commits them; `none` is the panic of `expect("just listed")`.
unfoldable pub commit_all : Hysteresis → List Text → Option Hysteresis
commit_all h [] = some h
commit_all h (widget ∷ widgets) = elim (lookup widget h.pending) [
  | none ↦ none
  | some t ↦
      commit_all
        (record h {
          committed = insert widget t.target h.committed;
          pending = remove widget h.pending;
        })
        widgets
]

abbrev pub delay : HysteresisConfig → Prominence → Prominence → ℕ
delay config committed target =
    if prom_lt committed target then config.activation_delay else config.deactivation_delay

-- Whether a transition to the same target is pending already.
abbrev pub is_pending : Option Transition → Prominence → Bool
is_pending none target = false
is_pending (some t) target = prom_eq t.target target

-- The second step of `observe` for one entry of the cascade.
unfoldable pub decide : ℕ → Hysteresis → Text → Prominence → Hysteresis
decide now h widget target = elim (lookup widget h.committed) [
  | none ↦ record h {
    committed = insert widget target h.committed;
    pending = remove widget h.pending;
  }
  | some current ↦
      if prom_eq current target
      then record h { pending = remove widget h.pending }
      else if is_pending (lookup widget h.pending) target
      then h
      else record h {
        pending =
            insert widget
              (record { target = target; commit_at = now + delay h.config current target })
              h.pending;
      }
]

unfoldable pub decide_all : ℕ → Hysteresis → Assoc Prominence → Hysteresis
decide_all now h [] = h
decide_all now h ((widget, target) ∷ cascade) = decide_all now (decide now h widget target) cascade

-- The state afterwards; the result of the call is a copy of its committed map.
unfoldable pub observe : Hysteresis → Assoc Prominence → ℕ → Option Hysteresis
observe h cascade now = elim (commit_all h (ready cascade now h.pending)) [
  | none ↦ none
  | some h' ↦ some (decide_all now h' cascade)
]

unfoldable pub force_commit : Hysteresis → Text → Prominence → Hysteresis
force_commit h widget prominence = record h {
  committed = insert widget prominence h.committed;
  pending = remove widget h.pending;
}
