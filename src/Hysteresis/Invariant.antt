-- ===== src/Hysteresis/Invariant.antt =====
-- What holds between two calls of crates/levshell-context/src/hysteresis.rs.
use levshell.Prelude.{
  ℕ, ◌+◌, insert, remove, ◌≡◌, Text, Assoc, IsMap, lookup, insert-IsMap, remove-IsMap, Bool, true,
  false, Option, none, some, List, [], ◌∷◌, arith, subst, sym, lookup-insert, lookup-remove,
  if◌then◌else◌, text_eq, inl, inr, Option-cases,
}
use levshell.Prominence.{Prominence, prom_eq}
use levshell.Hysteresis.{
  HysteresisConfig, Transition, Hysteresis, ready, commit_all, delay, decide, decide_all, observe,
  force_commit,
}
use levshell.Hysteresis.Widget.{View, view, widget_step, observe-view}

-- A transition is pending only towards a level other than the committed one.
abbrev pub IsCoherent : View → Type 0
IsCoherent v = elim v.pending [
  | none ↦ Unit
  | some t ↦ elim v.committed [ none ↦ ⊥ | some c ↦ prom_eq c t.target ≡ false ]
]

pub record IsValid (h : Hysteresis) : Type 0 where
  pub committed_map : IsMap h.committed
  pub pending_map : IsMap h.pending
  pub coherent : (j : Text) → IsCoherent (view h j)

decide-maps :
    (now : ℕ) (h : Hysteresis) (w : Text) (target : Prominence)
    → IsMap h.committed × IsMap h.pending
    → IsMap (decide now h w target).committed × IsMap (decide now h w target).pending
unfolding decide
decide-maps now h w target m = elim (Option-cases (lookup w h.committed)) [
  | inl e ↦ rw (e, decide) (insert-IsMap w target h.committed m.0, remove-IsMap w h.pending m.1)
  | inr (c, e) ↦
      let next : Transition = record {
        target = target;
        commit_at = now + delay h.config c target;
      } in
      ground (arith, e, insert-IsMap w next h.pending m.1, remove-IsMap w h.pending m.1)
]

decide_all-maps :
    (now : ℕ) (h : Hysteresis) (cascade : Assoc Prominence)
    → IsMap h.committed × IsMap h.pending
    → IsMap (decide_all now h cascade).committed × IsMap (decide_all now h cascade).pending
unfolding decide_all
decide_all-maps now h [] m = m
decide_all-maps now h ((w, target) ∷ cascade) m =
    decide_all-maps now (decide now h w target) cascade (decide-maps now h w target m)

abbrev HaveMaps : Option Hysteresis → Type 0
HaveMaps none = Unit
HaveMaps (some h) = IsMap h.committed × IsMap h.pending

commit_all-maps :
    (h : Hysteresis) (ws : List Text)
    → IsMap h.committed × IsMap h.pending
    → HaveMaps (commit_all h ws)
unfolding commit_all
commit_all-maps h [] m = m
commit_all-maps h (w ∷ ws) m = elim (Option-cases (lookup w h.pending)) [
  | inl e ↦ rw (e, commit_all) tt
  | inr (t, e) ↦
      rw (e, commit_all)
        (commit_all-maps
          (record h { committed = insert w t.target h.committed; pending = remove w h.pending }) ws
          (insert-IsMap w t.target h.committed m.0, remove-IsMap w h.pending m.1))
]

observe-maps :
    (h : Hysteresis) (cascade : Assoc Prominence) (now : ℕ)
    → IsMap h.committed × IsMap h.pending
    → HaveMaps (observe h cascade now)
unfolding observe
observe-maps h cascade now m =
    elim (commit_all h (ready cascade now h.pending))
        as (λ o.
          HaveMaps o
          → HaveMaps (elim o [ none ↦ none | some h' ↦ some (decide_all now h' cascade) ])) [
            | none ↦ λ k. tt
            | some h' ↦ λ k. decide_all-maps now h' cascade k
          ]
      (commit_all-maps h (ready cascade now h.pending) m)

widget_step-IsCoherent :
    (config : HysteresisConfig) (now : ℕ) (asked : Option Prominence) (v : View)
    → IsCoherent v
    → IsCoherent (widget_step config now asked v)
widget_step-IsCoherent config now none v c = c
widget_step-IsCoherent config now (some target) v c = ground (arith)

-- `observe` never panics, and keeps the invariant: both maps stay maps, and a transition is pending
-- only towards a level other than the committed one.
pub observe-IsValid :
    (h : Hysteresis) (cascade : Assoc Prominence) (now : ℕ)
    → IsMap cascade
    → IsValid h
    → (h' : Hysteresis) × (observe h cascade now ≡ some h') × IsValid h'
observe-IsValid h cascade now c v =
    let (h', runs, views) = observe-view h cascade now v.pending_map c in
    let maps = subst HaveMaps runs (observe-maps h cascade now (v.committed_map, v.pending_map)) in
    (
      h',
      runs,
      record {
        committed_map = maps.0;
        pending_map = maps.1;
        coherent = λ j.
            subst IsCoherent (sym (views j))
              (widget_step-IsCoherent h.config now (lookup j cascade) (view h j) (v.coherent j));
      },
    )

-- `force_commit` commits at once whatever is pending, leaves the other widgets alone, and keeps the
-- invariant.
pub force_commit-IsValid :
    (h : Hysteresis) (widget : Text) (prominence : Prominence)
    → IsValid h
    → IsValid (force_commit h widget prominence)
      × ((j : Text)
          → view (force_commit h widget prominence) j ≡ (
              if text_eq widget j
              then record { committed = some prominence; pending = none }
              else view h j))
unfolding force_commit
force_commit-IsValid h w p v = (
  record {
    committed_map = insert-IsMap w p h.committed v.committed_map;
    pending_map = remove-IsMap w h.pending v.pending_map;
    coherent = λ j. subst IsCoherent (sym (at j)) (at_once (text_eq w j) (view h j) (v.coherent j));
  },
  at,
)
  where
    at :
        (j : Text)
        → view (force_commit h w p) j
          ≡ (if text_eq w j then record { committed = some p; pending = none } else view h j)
    at j = ground (arith, lookup-insert w j p h.committed, lookup-remove w j h.pending)

    at_once :
        (b : Bool) (old : View)
        → IsCoherent old
        → IsCoherent (if b then record { committed = some p; pending = none } else old)
    at_once true old c = tt
    at_once false old c = c
