-- ===== src/ContextEngine/Told.antt =====
-- One call of crates/levshell-modules/src/context_engine.rs, and what it tells the shell.
use levshell.Prelude.{
  ℕ, ◌<◌, ◌≡◌, refl, ◌∙◌, ap, sym, Text, text_eq, bytes, lookup, none, some, List, [], ◌∷◌, ◌++◌,
  length, Bool-cases, inl, inr,
}
use levshell.Prominence.{Prominence}
use levshell.Signals.{SignalValue, SignalContext, get}
use levshell.Expr.Syntax.{Numbers}
use levshell.Hysteresis.Invariant.{IsValid}
use levshell.Cascade.{get_or_hidden}
use levshell.Bus.Events.{Event}
use levshell.ContextEngine.State.{
  ContextEngine, Message, BarDensity, bar_density_state, ui_scale_state, previous,
}
use levshell.ContextEngine.Actions.{
  Scale, set_signal, set_or_clear, clear_signal, set_scale, resolve_scale, apply_event, on_event,
  tick, unwrap_or, text_signal, parsed,
}
use levshell.ContextEngine.Follow.{follow, follow-append}
use levshell.ContextEngine.Profiles.{
  IsKnown, IsAction, apply_profile_action-IsAction, next_in-Member,
}
use levshell.ContextEngine.Shown.{
  IsShown, IsPublished, shown_level, shown_layout, held_layout, last_layout, last_layout-append,
  resolve_and_publish-IsPublished,
}

module _ {N : Type 0} where
  -- What the handling of an event leaves alone before anything is published.
  record IsApplied (e e' : ContextEngine N) (ms : List (Message N)) : Type 0 where
    same_hysteresis : e'.hysteresis ≡ e.hysteresis
    same_last : e'.last_published ≡ e.last_published
    same_profiles : e'.profiles ≡ e.profiles
    known : IsKnown e.profiles e.active_profile → IsKnown e.profiles e'.active_profile
    levels : (j : Text) (p : Prominence) → follow j p ms ≡ p
    layout : last_layout (shown_layout e) ms ≡ shown_layout e

  signals-IsApplied :
      (e : ContextEngine N) (s : SignalContext N) → IsApplied e (record e { signals = s }) []
  signals-IsApplied e s = record {
    same_hysteresis = refl;
    same_last = refl;
    same_profiles = refl;
    known = λ k. k;
    levels = λ j p. refl;
    layout = refl;
  }

  density-IsApplied :
      (e : ContextEngine N) (s : SignalContext N) (d : BarDensity)
      → IsApplied e (record e { signals = s }) (bar_density_state d ∷ [])
  density-IsApplied e s d = record {
    same_hysteresis = refl;
    same_last = refl;
    same_profiles = refl;
    known = λ k. k;
    levels = λ j p. refl;
    layout = refl;
  }

  scale-IsApplied :
      (e : ContextEngine N) (s : SignalContext N) (n : N)
      → IsApplied e (record e { signals = s }) (ui_scale_state n ∷ [])
  scale-IsApplied e s n = record {
    same_hysteresis = refl;
    same_last = refl;
    same_profiles = refl;
    known = λ k. k;
    levels = λ j p. refl;
    layout = refl;
  }

  IsAction-IsApplied : (e e' : ContextEngine N) → IsAction e e' → IsApplied e e' []
  IsAction-IsApplied e e' a = record {
    same_hysteresis = ap (λ x. x.hysteresis) a.rest;
    same_last = ap (λ x. x.last_published) a.rest;
    same_profiles = ap (λ x. x.profiles) a.rest;
    known = a.known;
    levels = λ j p. refl;
    layout = refl;
  }

  -- The published state after the calls, told to the shell by the messages.
  pub record IsTold (e e' : ContextEngine N) (ms : List (Message N)) : Type 0 where
    pub valid : IsValid e'.hysteresis
    pub shown : IsShown e e' ms
    pub committed : (j : Text) → shown_level e' j ≡ get_or_hidden (lookup j e'.hysteresis.committed)
    pub same_profiles : e'.profiles ≡ e.profiles
    pub known : IsKnown e.profiles e.active_profile → IsKnown e.profiles e'.active_profile

  -- What an event changes, and then the publication.
  published-IsTold :
      (e e1 e2 : ContextEngine N) (first rest : List (Message N))
      → IsApplied e e1 first
      → IsPublished e1 e2 rest
      → IsTold e e2 (first ++ rest)
  published-IsTold e e1 e2 first rest a p =
      let levels : (j : Text) → shown_level e1 j ≡ shown_level e j =
        λ j. ap (λ last. get_or_hidden (lookup j (previous last))) a.same_last in
      let layout : shown_layout e1 ≡ shown_layout e = ap held_layout a.same_last in
      record {
        valid = p.valid;
        shown = record {
          levels = λ j.
              follow-append j (shown_level e j) first rest
              ∙ ap (λ q. follow j q rest) (a.levels j (shown_level e j) ∙ sym (levels j))
              ∙ p.shown.levels j;
          layout =
              last_layout-append N (shown_layout e) first rest
              ∙ ap (λ held. last_layout held rest) (a.layout ∙ sym layout)
              ∙ p.shown.layout;
        };
        committed = p.committed;
        same_profiles = p.same_profiles ∙ a.same_profiles;
        known = λ k. rw p.same_active (a.known k);
      }

module _ {N : Type 0} (num : Numbers N) (scale : Scale N) where
  resolve_scale-some :
      (e : ContextEngine N) (value : Text)
      → 0 < length scale.steps
      → (n : N) × (resolve_scale num scale e value ≡ some n)
  unfolding resolve_scale
  resolve_scale-some e value h = elim (Bool-cases (text_eq value (bytes "cycle"))) [
    | inl c ↦
        let current : N =
          unwrap_or (parsed num scale (text_signal (get e.signals (bytes "ui.scale"))))
            scale.default_scale in
        let (n, found, here) = next_in-Member (λ s. scale.is_near s current) scale.steps h in
        (n, rw c found)
    | inr c ↦ (scale.clamp (unwrap_or (num.parse_f64 value) scale.default_scale), rw c refl)
  ]

  -- An event that is applied without a panic.
  abbrev Applies : {U : Type 0} → ContextEngine N → Event U → Type 0
  Applies e ev =
      (e' : ContextEngine N) × (ms : List (Message N)) × (apply_event num scale e ev
        ≡ some (e', ms))
      × IsApplied e e' ms

  apply_event-Applies :
      {U : Type 0} (e : ContextEngine N) (ev : Event U) → 0 < length scale.steps → Applies e ev
  unfolding apply_event set_signal set_or_clear clear_signal set_scale
  apply_event-Applies e (Event.workspace_changed name none) h = (_, [], refl, signals-IsApplied e _)
  apply_event-Applies e (Event.workspace_changed name (some w)) h =
      (_, [], refl, signals-IsApplied e _)
  apply_event-Applies e (Event.window_focused none title) h = (_, [], refl, signals-IsApplied e _)
  apply_event-Applies e (Event.window_focused (some a) title) h =
      (_, [], refl, signals-IsApplied e _)
  apply_event-Applies e (Event.power_state_changed b) h = (_, [], refl, signals-IsApplied e _)
  apply_event-Applies e (Event.bar_density_requested mode) h = (_, _, refl, density-IsApplied e _ _)
  apply_event-Applies e (Event.ui_scale_requested value) h =
      let (n, found) = resolve_scale-some e value h in
      (
        set_signal (bytes "ui.scale") (SignalValue.string (scale.to_text n)) e,
        ui_scale_state n ∷ [],
        ap (set_scale num scale e) found,
        scale-IsApplied e _ n,
      )
  apply_event-Applies e (Event.profile_action_requested action name) h =
      let (e', ran, act) = apply_profile_action-IsAction e action name in
      (e', [], rw ran refl, IsAction-IsApplied e e' act)
  apply_event-Applies e (Event.focus_session_started k p s) h = (_, [], refl, signals-IsApplied e _)
  apply_event-Applies e (Event.focus_session_ended k p s) h = (_, [], refl, signals-IsApplied e _)
  apply_event-Applies e _ h = (_, [], refl, signals-IsApplied e e.signals)

  pub on_event-IsTold :
      {U : Type 0} (e : ContextEngine N) (ev : Event U) (now : ℕ)
      → 0 < length scale.steps
      → IsValid e.hysteresis
      → (e' : ContextEngine N) × (ms : List (Message N)) × (on_event num scale e ev now
          ≡ some (e', ms))
        × IsTold e e' ms
  unfolding on_event
  on_event-IsTold e ev now h v =
      let (e1, first, applied, a) = apply_event-Applies e ev h in
      let (e2, rest, ran, p) =
        resolve_and_publish-IsPublished num e1 now (rw a.same_hysteresis v) in
      (e2, first ++ rest, rw (applied, ran, on_event) refl, published-IsTold e e1 e2 first rest a p)

  pub tick-IsTold :
      (e : ContextEngine N) (now : ℕ)
      → IsValid e.hysteresis
      → (e' : ContextEngine N) × (ms : List (Message N)) × (tick num scale e now ≡ some (e', ms))
        × IsTold e e' ms
  unfolding tick
  tick-IsTold e now v =
      let (e1, ms, ran, p) = resolve_and_publish-IsPublished num e now v in
      (
        e1,
        ms,
        ran,
        record {
          valid = p.valid;
          shown = p.shown;
          committed = p.committed;
          same_profiles = p.same_profiles;
          known = λ k. rw p.same_active k;
        },
      )
