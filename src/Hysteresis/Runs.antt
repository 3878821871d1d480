-- ===== src/Hysteresis/Runs.antt =====
-- Runs of `observe` of crates/levshell-context/src/hysteresis.rs, and the widget in them.
use levshell.Prelude.{
  ℕ, ◌≡◌, inl, inr, refl, ◌∙◌, sym, ap, subst, Text, Assoc, IsMap, lookup, insert, remove, Option,
  none, some, List, [], ◌∷◌, Option-cases,
}
use levshell.Prominence.{Prominence}
use levshell.Hysteresis.{
  HysteresisConfig, Hysteresis, ready, commit_all, decide, decide_all, observe,
}
use levshell.Hysteresis.Widget.{view, widget_step, decide-config, observe-view}
use levshell.Hysteresis.Invariant.{IsValid, observe-IsValid}
use levshell.Hysteresis.Machine.{History, after}

-- What the cascade was at each call of `observe`, and when; the newest call stands first.
abbrev pub Calls : Type 0
Calls = List (Assoc Prominence × ℕ)

unfoldable pub run : Hysteresis → Calls → Option Hysteresis
run h [] = some h
run h ((cascade, now) ∷ older) = elim (run h older) [
  | none ↦ none
  | some h' ↦ observe h' cascade now
]

-- Every cascade is a hash map, which has each key once.
abbrev pub AreMaps : Calls → Type 0
AreMaps [] = Unit
AreMaps ((cascade, now) ∷ older) = IsMap cascade × AreMaps older

-- The calls whose cascade names the widget, with the level it asks for.
unfoldable pub asks : Text → Calls → History
asks w [] = []
asks w ((cascade, now) ∷ older) = elim (lookup w cascade) [
  | none ↦ asks w older
  | some target ↦ (now, target) ∷ asks w older
]

abbrev HasConfig : HysteresisConfig → Option Hysteresis → Type 0
HasConfig config none = Unit
HasConfig config (some h) = h.config ≡ config

commit_all-HasConfig : (h : Hysteresis) (ws : List Text) → HasConfig h.config (commit_all h ws)
unfolding commit_all
commit_all-HasConfig h [] = refl
commit_all-HasConfig h (w ∷ ws) = elim (Option-cases (lookup w h.pending)) [
  | inl e ↦ rw (e, commit_all) tt
  | inr (t, e) ↦
      rw (e, commit_all)
        (commit_all-HasConfig
          (record h { committed = insert w t.target h.committed; pending = remove w h.pending }) ws)
]

decide_all-config :
    (now : ℕ) (h : Hysteresis) (cascade : Assoc Prominence)
    → (decide_all now h cascade).config ≡ h.config
unfolding decide_all
decide_all-config now h [] = refl
decide_all-config now h ((w, target) ∷ cascade) =
    decide_all-config now (decide now h w target) cascade ∙ decide-config now h w target

observe-HasConfig :
    (h : Hysteresis) (cascade : Assoc Prominence) (now : ℕ)
    → HasConfig h.config (observe h cascade now)
unfolding observe
observe-HasConfig h cascade now =
    elim (commit_all h (ready cascade now h.pending))
        as (λ o.
          HasConfig h.config o
          → HasConfig h.config
              (elim o [ none ↦ none | some h' ↦ some (decide_all now h' cascade) ])) [
                | none ↦ λ k. tt
                | some h' ↦ λ k. decide_all-config now h' cascade ∙ k
              ]
      (commit_all-HasConfig h (ready cascade now h.pending))

-- One call, all of what it does to the widget `w`.
pub observe_one :
    (h : Hysteresis) (cascade : Assoc Prominence) (now : ℕ)
    → IsMap cascade
    → IsValid h
    → (h' : Hysteresis) × (observe h cascade now ≡ some h')
      × IsValid h'
      × (h'.config ≡ h.config)
      × ((w : Text) → view h' w ≡ widget_step h.config now (lookup w cascade) (view h w))
observe_one h cascade now m v =
    let (h', runs, valid) = observe-IsValid h cascade now m v in
    let (h2, runs2, views) = observe-view h cascade now v.pending_map m in
    let same : h2 ≡ h' = let both : some h2 ≡ some h' = sym runs2 ∙ runs in cc in
    (
      h',
      runs,
      valid,
      subst (HasConfig h.config) runs (observe-HasConfig h cascade now),
      λ w. ap (λ x. view x w) (sym same) ∙ views w,
    )

-- A widget after a run is its machine after the calls that name it.
pub run-after :
    (h : Hysteresis) (calls : Calls)
    → IsValid h
    → AreMaps calls
    → (h' : Hysteresis) × (run h calls ≡ some h')
      × IsValid h'
      × (h'.config ≡ h.config)
      × ((w : Text) → view h' w ≡ after h.config (view h w) (asks w calls))
unfolding run asks
run-after h [] v m = (h, refl, v, refl, λ w. refl)
run-after h ((cascade, now) ∷ older) v m =
    let (h1, runs, valid, config, views) = run-after h older v m.1 in
    let (h2, step, valid2, config2, views2) = observe_one h1 cascade now m.0 valid in
    (
      h2,
      rw (runs, run) step,
      valid2,
      config2 ∙ config,
      λ w. views2 w ∙ (elim (Option-cases (lookup w cascade)) [
        | inl e ↦ rw (e, asks) (views w)
        | inr (target, e) ↦
            rw (e, asks, config) (ap (λ x. widget_step h.config now (some target) x) (views w))
      ]),
    )
