-- ===== src/Focus/Watch.antt =====
-- The module of crates/levshell-modules/src/focus/mod.rs beside the context engine, on one bus.
use levshell.Prelude.{
  ℕ, ◌<◌, ◌≡◌, ◌∙◌, ap, sym, Text, Option, none, some, List, [], ◌∷◌, ◌++◌, length, Option-cases,
  inl, inr,
}
use levshell.Signals.{get}
use levshell.Expr.Syntax.{Numbers}
use levshell.Bus.Events.{Event}
use levshell.Cascade.{resolve_layout}
use levshell.Hysteresis.{observe}
use levshell.Focus.Module.{FocusModeModule}
use levshell.Focus.Module.{
  apply_event as mirror_event, evaluate_and_publish, on_event as on_mirrored, tick as mirrored_tick,
}
use levshell.ContextEngine.State.{
  ContextEngine, Message, cascade_input, publish, resolve_and_publish,
}
use levshell.ContextEngine.Actions.{Scale, apply_event, on_event, tick}
use levshell.Hysteresis.Invariant.{IsValid}
use levshell.ContextEngine.Profiles.{IsKnown}
use levshell.ContextEngine.Runs.{step, run, run-IsSynced}
use levshell.Focus.Mirror.{IsShared, Agree, result-Agree, apply_event-Agree}

module _ {N : Type 0} (num : Numbers N) where
  -- The focus module after the call; its own times do not matter for the signals.
  unfoldable pub watch_call :
      {U : Type 0} → FocusModeModule N → Option (Event U) → ℕ → FocusModeModule N
  watch_call {U} m none now = (mirrored_tick num {U = U} m now).0
  watch_call m (some ev) now = (on_mirrored num m ev now).0

  unfoldable pub watch :
      {U : Type 0} → FocusModeModule N → List (Option (Event U) × ℕ) → FocusModeModule N
  watch m [] = m
  watch m ((call, now) ∷ calls) = watch (watch_call m call now) calls

module _ {N : Type 0} (num : Numbers N) (scale : Scale N) where
  -- Publishing leaves the signals alone.
  resolve_and_publish-signals :
      (e e' : ContextEngine N) (now : ℕ) (ms : List (Message N))
      → resolve_and_publish num e now ≡ some (e', ms)
      → e'.signals ≡ e.signals
  unfolding resolve_and_publish publish
  resolve_and_publish-signals e e' now ms h =
      elim (Option-cases (resolve_layout num (cascade_input e))) [
        | inl r ↦ absurd (
            let bad : ◌≡◌ {A = Option (ContextEngine N × List (Message N))} none (some (e', ms)) =
              rw (r, resolve_and_publish) at h in
            cc)
        | inr (layout, r) ↦ elim (Option-cases (observe e.hysteresis layout.prominences now)) [
          | inl o ↦ absurd (
              let bad : ◌≡◌ {A = Option (ContextEngine N × List (Message N))} none (some (e', ms)) =
                rw (r, o, resolve_and_publish) at h in
              cc)
          | inr (hys, o) ↦
              let it : some (publish e layout hys) ≡ some (e', ms) =
                rw (r, o, resolve_and_publish) at h in
              let same : publish e layout hys ≡ (e', ms) = cc in ap (λ x. x.0.signals) (sym same)
        ]
      ]

  event_step-Agree :
      {U : Type 0} (k : Text) (e e' : ContextEngine N) (m : FocusModeModule N) (ev : Event U)
      (now : ℕ) (ms : List (Message N))
      → IsShared k
      → on_event num scale e ev now ≡ some (e', ms)
      → Agree k e.signals m.signals
      → Agree k e'.signals (mirror_event m ev).signals
  unfolding on_event
  event_step-Agree k e e' m ev now ms shared h a =
      elim (Option-cases (apply_event num scale e ev)) [
        | inl s ↦ absurd (
            let bad : ◌≡◌ {A = Option (ContextEngine N × List (Message N))} none (some (e', ms)) =
              rw (s, on_event) at h in
            cc)
        | inr ((e1, first), s) ↦ elim (Option-cases (resolve_and_publish num e1 now)) [
          | inl r ↦ absurd (
              let bad : ◌≡◌ {A = Option (ContextEngine N × List (Message N))} none (some (e', ms)) =
                rw (s, r, on_event) at h in
              cc)
          | inr ((e2, later), r) ↦
              let it : ◌≡◌ {A = Option (ContextEngine N × List (Message N))}
                  (some (e2, first ++ later)) (some (e', ms)) =
                rw (s, r, on_event) at h in
              result-Agree k e2 e' (first ++ later) ms (mirror_event m ev).signals it (
                ap (λ x. get x k) (resolve_and_publish-signals e1 e2 now later r)
                ∙ apply_event-Agree num scale k e e1 m ev first shared s a)
        ]
      ]

  -- The same call of the two modules, an event or a tick.
  step-Agree :
      {U : Type 0} (k : Text) (e e' : ContextEngine N) (m : FocusModeModule N)
      (call : Option (Event U)) (now : ℕ) (ms : List (Message N))
      → IsShared k
      → step num scale e call now ≡ some (e', ms)
      → Agree k e.signals m.signals
      → Agree k e'.signals (watch_call num m call now).signals
  unfolding step watch_call tick mirrored_tick on_mirrored evaluate_and_publish
  step-Agree k e e' m none now ms shared h a =
      ap (λ x. get x k) (resolve_and_publish-signals e e' now ms h) ∙ a
  step-Agree k e e' m (some ev) now ms shared h a = event_step-Agree k e e' m ev now ms shared h a

  watch-Agree :
      {U : Type 0} (e e' : ContextEngine N) (m : FocusModeModule N)
      (calls : List (Option (Event U) × ℕ)) (ms : List (Message N))
      → run num scale e calls ≡ some (e', ms)
      → ((k : Text) → IsShared k → Agree k e.signals m.signals)
      → (k : Text) → IsShared k
      → Agree k e'.signals (watch num m calls).signals
  unfolding run watch
  watch-Agree e e' m [] ms h a k shared = result-Agree k e e' [] ms m.signals h (a k shared)
  watch-Agree e e' m ((call, now) ∷ calls) ms h a k shared =
      elim (Option-cases (step num scale e call now)) [
        | inl s ↦ absurd (
            let bad : ◌≡◌ {A = Option (ContextEngine N × List (Message N))} none (some (e', ms)) =
              rw (s, run) at h in
            cc)
        | inr ((e1, first), s) ↦ elim (Option-cases (run num scale e1 calls)) [
          | inl r ↦ absurd (
              let bad : ◌≡◌ {A = Option (ContextEngine N × List (Message N))} none (some (e', ms)) =
                rw (s, r, run) at h in
              cc)
          | inr ((e2, rest), r) ↦
              let it : ◌≡◌ {A = Option (ContextEngine N × List (Message N))}
                  (some (e2, first ++ rest)) (some (e', ms)) =
                rw (s, r, run) at h in
              result-Agree k e2 e' (first ++ rest) ms
                (watch num (watch_call num m call now) calls).signals it
                (watch-Agree e1 e2 (watch_call num m call now) calls rest r
                  (λ j shared_j. step-Agree j e e1 m call now first shared_j s (a j shared_j)) k
                  shared)
        ]
      ]

  -- The two modules on one bus, with the same signals at the start: after any run of events and ticks,
  -- which the context engine survives, the focus module has the same signal as the context engine
  -- under every key but the five that the context engine alone sets.
  pub run-mirrors :
      {U : Type 0} (e : ContextEngine N) (m : FocusModeModule N)
      (calls : List (Option (Event U) × ℕ))
      → 0 < length scale.steps
      → IsValid e.hysteresis
      → IsKnown e.profiles e.active_profile
      → ((k : Text) → IsShared k → Agree k e.signals m.signals)
      → (e' : ContextEngine N) × (ms : List (Message N)) × (run num scale e calls ≡ some (e', ms))
        × ((k : Text) → IsShared k → Agree k e'.signals (watch num m calls).signals)
  run-mirrors e m calls h v known a =
      let (e', ms, ran, synced) = run-IsSynced num scale e calls h v known in
      (e', ms, ran, watch-Agree e e' m calls ms ran a)
