-- ===== src/Hysteresis/Timing.antt =====
-- When crates/levshell-context/src/hysteresis.rs commits a change, over any run of `observe`.
use levshell.Prelude.{
  ℕ, ◌+◌, ◌≤◌, ◌<◌, ◌≡◌, ◌≢◌, ◌⊎◌, inl, inr, refl, ◌∙◌, sym, ap, subst, Text, Assoc, IsMap, lookup,
  Option, none, some, ◌∷◌,
}
use levshell.Prominence.{Prominence}
use levshell.Hysteresis.{HysteresisConfig, Hysteresis, delay, observe}
use levshell.Hysteresis.Widget.{View, view, widget_step}
use levshell.Hysteresis.Invariant.{IsValid}
use levshell.Hysteresis.Machine.{History, after, steady_since, IsSettled}
use levshell.Hysteresis.Changes.{Moves, after-Moves, after-Settles}
use levshell.Hysteresis.Runs.{Calls, run, AreMaps, asks, observe_one, run-after}

-- What one more call does to the level `before` of a widget, after calls that asked `h` for it: the
-- level stays, or the widget was not known, or the level changes to the one that the cascade asks
-- for, which has been asked for throughout the delay of the change.
abbrev pub Committed :
    HysteresisConfig
    → ℕ
    → Option Prominence
    → History
    → Option Prominence
    → Option Prominence
    → Type 0
Committed config now asked h before later =
    (later ≡ before)
    ⊎ ((before ≡ none)
        ⊎ ((c : Prominence) × (target : Prominence) × (before ≡ some c)
            × (asked ≡ some target)
            × (later ≡ some target)
            × (steady_since now target h + delay config c target ≤ now)))

Moves-Committed :
    (config : HysteresisConfig) (now : ℕ) (target : Prominence) (h : History) (s s' : View)
    → Moves config now target h s s'
    → Committed config now (some target) h s.committed s'.committed
Moves-Committed config now target h s s' (inl same) = inl same
Moves-Committed config now target h s s' (inr (inl unknown)) = inr (inl unknown)
Moves-Committed config now target h s s' (inr (inr (c, e, e', due))) =
    inr (inr (c, target, e, refl, e', due))

after-Committed :
    (config : HysteresisConfig) (v : View) (h : History) (now : ℕ) (asked : Option Prominence)
    (s : View)
    → v.pending ≡ none
    → after config v h ≡ s
    → Committed config now asked h s.committed (widget_step config now asked s).committed
after-Committed config v h now none s p e = inl refl
after-Committed config v h now (some target) s p e =
    Moves-Committed config now target h s (widget_step config now (some target) s) (
      subst (λ x. Moves config now target h x (widget_step config now (some target) x)) e
        (after-Moves config v h now target p))

-- Safety of the debouncer, over every run of `observe` from a valid state in which nothing is
-- pending for the widget `w`, where each cascade is a hash map. No call panics. And a call changes
-- the level of a known widget only to the level that its cascade asks for, and only once every call
-- that names the widget has asked for that level during the whole activation delay (upwards) or
-- deactivation delay (downwards). A call that does not name the widget neither breaks this wait nor
-- restarts it.
pub commit_needs_delay :
    (h : Hysteresis) (calls : Calls) (cascade : Assoc Prominence) (now : ℕ) (w : Text)
    → IsValid h
    → AreMaps calls
    → IsMap cascade
    → lookup w h.pending ≡ none
    → (h1 : Hysteresis) × (h2 : Hysteresis) × (run h calls ≡ some h1)
      × (observe h1 cascade now ≡ some h2)
      × Committed h.config now
          (lookup w cascade)
          (asks w calls)
          (lookup w h1.committed)
          (lookup w h2.committed)
commit_needs_delay h calls cascade now w v m c p =
    let (h1, runs, valid, config, views) = run-after h calls v m in
    let (h2, step, valid2, config2, views2) = observe_one h1 cascade now c valid in
    let moved : Committed h.config now (lookup w cascade) (asks w calls) (view h1 w).committed
        (widget_step h.config now (lookup w cascade) (view h1 w)).committed =
      after-Committed h.config (view h w) (asks w calls) now (lookup w cascade) (view h1 w) p
        (sym (views w)) in
    let seen : view h2 w ≡ widget_step h.config now (lookup w cascade) (view h1 w) =
      rw config at (views2 w) in
    (
      h1,
      h2,
      runs,
      step,
      subst
          (λ x.
            Committed h.config now (lookup w cascade) (asks w calls) (view h1 w).committed
              x.committed)
          (sym seen) moved,
    )

-- Liveness, over the same runs: when the newest call that names `w` asked for `target`, at the time
-- `before`, and the next call asks for it again, then after that call `target` is committed and
-- nothing is pending, unless another level was committed before it and the delay from that level is
-- not yet over; it counts from the first of the calls naming `w` that have asked for `target` and
-- for nothing else since.
pub commits_when_due :
    (h : Hysteresis) (calls : Calls) (cascade : Assoc Prominence) (now : ℕ) (w : Text)
    (target : Prominence) (before : ℕ) (older : History)
    → IsValid h
    → AreMaps calls
    → IsMap cascade
    → lookup w h.pending ≡ none
    → lookup w cascade ≡ some target
    → asks w calls ≡ (before, target) ∷ older
    → (h1 : Hysteresis) × (h2 : Hysteresis) × (run h calls ≡ some h1)
      × (observe h1 cascade now ≡ some h2)
      × (((lookup w h2.pending ≡ none) × (lookup w h2.committed ≡ some target))
          ⊎ ((c : Prominence) × (lookup w h1.committed ≡ some c)
              × (c ≢ target)
              × (now < steady_since before target older + delay h.config c target)))
commits_when_due h calls cascade now w target before older v m c p asked history =
    let (h1, runs, valid, config, views) = run-after h calls v m in
    let (h2, step, valid2, config2, views2) = observe_one h1 cascade now c valid in
    let s1 : view h1 w ≡ after h.config (view h w) ((before, target) ∷ older) =
      rw history at (views w) in
    let s2 : view h2 w ≡ after h.config (view h w) ((now, target) ∷ (before, target) ∷ older) =
      (rw (config, asked) at (views2 w)) ∙ ap (λ x. widget_step h.config now (some target) x) s1 in
    (
      h1,
      h2,
      runs,
      step,
      subst
          (λ x.
            IsSettled x target
            ⊎ ((c : Prominence) × (lookup w h1.committed ≡ some c)
                × (c ≢ target)
                × (now < steady_since before target older + delay h.config c target)))
          (sym s2)
          (subst
            (λ x.
              IsSettled (after h.config (view h w) ((now, target) ∷ (before, target) ∷ older))
                target
              ⊎ ((c : Prominence) × (x.committed ≡ some c)
                  × (c ≢ target)
                  × (now < steady_since before target older + delay h.config c target)))
            (sym s1) (after-Settles h.config (view h w) older before now target p)),
    )
