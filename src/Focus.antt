-- ===== src/Focus.antt =====
-- crates/levshell-modules/src/focus/tracker.rs: which profiles are activated on their own.
-- An Instant and a Duration are natural numbers of one unit.
pub mod Follow
pub mod Profile
pub mod Dwell
pub mod Reached
pub mod Module
pub mod Mirror
pub mod Watch
use levshell.Prelude.{
  ℕ, ◌-◌, Text, text_eq, Assoc, lookup, insert, remove, any_of, Bool, true, false, not, Option,
  none, some, List, [], ◌∷◌, ◌++◌, if◌then◌else◌, leb, filter_by, map,
}

pub data TriggerPhase : Type 0 where
  inactive : TriggerPhase
  activating : ℕ → TriggerPhase
  active : TriggerPhase
  deactivating : ℕ → TriggerPhase

pub data TriggerAction : Type 0 where
  activate deactivate : Text → TriggerAction

pub record TriggerInput : Type 0 where
  pub profile : Text
  pub predicate : Bool
  pub dwell : ℕ
  pub exit_dwell : ℕ

pub record FocusModeTracker : Type 0 where
  pub phases : Assoc TriggerPhase

unfoldable pub new : FocusModeTracker
new = record { phases = [] }

unfoldable pub phase : FocusModeTracker → Text → Option TriggerPhase
phase t profile = lookup profile t.phases

-- `entry(..).or_insert(TriggerPhase::Inactive)`.
abbrev pub or_inactive : Option TriggerPhase → TriggerPhase
or_inactive none = inactive
or_inactive (some p) = p

-- The `match` on the phase and the predicate: the new phase, and what is pushed. The subtraction
-- stops at zero, as `saturating_duration_since` does.
unfoldable pub advance : TriggerPhase → TriggerInput → ℕ → TriggerPhase × List TriggerAction
advance inactive input now = if input.predicate then (activating now, []) else (inactive, [])
advance (activating since) input now =
    if input.predicate
    then if leb input.dwell (now - since)
      then (active, activate input.profile ∷ [])
      else (activating since, [])
    else (inactive, [])
advance active input now = if input.predicate then (active, []) else (deactivating now, [])
advance (deactivating since) input now =
    if input.predicate
    then (active, [])
    else if leb input.exit_dwell (now - since)
    then (inactive, deactivate input.profile ∷ [])
    else (deactivating since, [])

-- The loop over the inputs.
unfoldable pub visit_all :
    Assoc TriggerPhase → List TriggerInput → ℕ → Assoc TriggerPhase × List TriggerAction
visit_all phases [] now = (phases, [])
visit_all phases (input ∷ inputs) now =
    let step = advance (or_inactive (lookup input.profile phases)) input now in
    let rest = visit_all (insert input.profile step.0 phases) inputs now in
    (rest.0, step.1 ++ rest.1)

-- `seen.contains(name)`.
unfoldable pub is_seen : List TriggerInput → Text → Bool
is_seen inputs name = any_of (λ input. text_eq input.profile name) inputs

unfoldable pub stale : List TriggerInput → Assoc TriggerPhase → List Text
stale inputs phases = filter_by (λ name. not (is_seen inputs name)) (map (λ entry. entry.0) phases)

-- `matches!(prev, Some(Active) | Some(Deactivating { .. }))`.
abbrev pub is_engaged : Option TriggerPhase → Bool
is_engaged none = false
is_engaged (some inactive) = false
is_engaged (some (activating since)) = false
is_engaged (some active) = true
is_engaged (some (deactivating since)) = true

-- The loop over the stale names.
unfoldable pub drop_all : Assoc TriggerPhase → List Text → Assoc TriggerPhase × List TriggerAction
drop_all phases [] = (phases, [])
drop_all phases (name ∷ names) =
    let rest = drop_all (remove name phases) names in
    (rest.0, if is_engaged (lookup name phases) then deactivate name ∷ rest.1 else rest.1)

unfoldable pub tick :
    FocusModeTracker → List TriggerInput → ℕ → FocusModeTracker × List TriggerAction
tick t inputs now =
    let visited = visit_all t.phases inputs now in
    let dropped = drop_all visited.0 (stale inputs visited.0) in
    (record { phases = dropped.0 }, visited.1 ++ dropped.1)
