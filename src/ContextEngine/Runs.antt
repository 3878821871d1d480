-- ===== src/ContextEngine/Runs.antt =====
-- Runs of crates/levshell-modules/src/context_engine.rs, with the shell at the other end.
use levshell.Prelude.{
  ℕ, ◌<◌, ◌≡◌, refl, ◌∙◌, ap, sym, subst, Option, none, some, List, [], ◌∷◌, ◌++◌, length,
}
use levshell.Expr.Syntax.{Numbers}
use levshell.Hysteresis.Invariant.{IsValid}
use levshell.Bus.Events.{Event}
use levshell.ContextEngine.State.{ContextEngine, Message}
use levshell.ContextEngine.Actions.{Scale, on_event, tick}
use levshell.ContextEngine.Follow.{follow, follow-append}
use levshell.ContextEngine.Profiles.{IsKnown}
use levshell.ContextEngine.Shown.{
  IsShown, shown_level, shown_layout, last_layout, last_layout-append,
}
use levshell.ContextEngine.Told.{IsTold, on_event-IsTold, tick-IsTold}

module _ {N : Type 0} where
  -- What the shell has been told after a run.
  pub record IsSynced (e e' : ContextEngine N) (ms : List (Message N)) : Type 0 where
    pub valid : IsValid e'.hysteresis
    pub shown : IsShown e e' ms
    pub known : IsKnown e.profiles e'.active_profile

  told-IsSynced :
      (e e1 e2 : ContextEngine N) (first rest : List (Message N))
      → IsTold e e1 first
      → IsSynced e1 e2 rest
      → IsSynced e e2 (first ++ rest)
  told-IsSynced e e1 e2 first rest a b = record {
    valid = b.valid;
    shown = record {
      levels = λ j.
          follow-append j (shown_level e j) first rest
          ∙ ap (λ q. follow j q rest) (a.shown.levels j)
          ∙ b.shown.levels j;
      layout =
          last_layout-append N (shown_layout e) first rest
          ∙ ap (λ held. last_layout held rest) a.shown.layout
          ∙ b.shown.layout;
    };
    known = subst (λ ps. IsKnown ps e2.active_profile) a.same_profiles b.known;
  }

module _ {N : Type 0} (num : Numbers N) (scale : Scale N) where
  -- A call of the module: a tick, or an event.
  unfoldable pub step :
      {U : Type 0}
      → ContextEngine N
      → Option (Event U)
      → ℕ
      → Option (ContextEngine N × List (Message N))
  step e none now = tick num scale e now
  step e (some ev) now = on_event num scale e ev now

  -- The calls in turn, each with the time at which it is made.
  unfoldable pub run :
      {U : Type 0}
      → ContextEngine N
      → List (Option (Event U) × ℕ)
      → Option (ContextEngine N × List (Message N))
  run e [] = some (e, [])
  run e ((call, now) ∷ calls) = elim (step e call now) [
    | none ↦ none
    | some (e1, first) ↦ elim (run e1 calls) [
      | none ↦ none
      | some (e2, rest) ↦ some (e2, first ++ rest)
    ]
  ]

  step-IsTold :
      {U : Type 0} (e : ContextEngine N) (call : Option (Event U)) (now : ℕ)
      → 0 < length scale.steps
      → IsValid e.hysteresis
      → (e' : ContextEngine N) × (ms : List (Message N)) × (step e call now ≡ some (e', ms))
        × IsTold e e' ms
  unfolding step
  step-IsTold e none now h v = tick-IsTold num scale e now v
  step-IsTold e (some ev) now h v = on_event-IsTold num scale e ev now h v

  -- From a state that the debouncer keeps, with an active profile that is configured or none, and
  -- with a step of the interface scale to cycle to: no run of ticks and events panics, a shell that
  -- follows the messages shows each widget at the level last published and holds the layout last
  -- published, and the active profile is again one of those configured, or none.
  pub run-IsSynced :
      {U : Type 0} (e : ContextEngine N) (calls : List (Option (Event U) × ℕ))
      → 0 < length scale.steps
      → IsValid e.hysteresis
      → IsKnown e.profiles e.active_profile
      → (e' : ContextEngine N) × (ms : List (Message N)) × (run e calls ≡ some (e', ms))
        × IsSynced e e' ms
  unfolding run
  run-IsSynced e [] h v k = (
    e,
    [],
    refl,
    record { valid = v; shown = record { levels = λ j. refl; layout = refl }; known = k },
  )
  run-IsSynced e ((call, now) ∷ calls) h v k =
      let (e1, first, ran, a) = step-IsTold e call now h v in
      let known1 : IsKnown e1.profiles e1.active_profile =
        subst (λ ps. IsKnown ps e1.active_profile) (sym a.same_profiles) (a.known k) in
      let (e2, rest, reran, b) = run-IsSynced e1 calls h a.valid known1 in
      (e2, first ++ rest, rw (ran, reran, run) refl, told-IsSynced e e1 e2 first rest a b)
