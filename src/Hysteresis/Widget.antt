-- ===== src/Hysteresis/Widget.antt =====
-- A specification of crates/levshell-context/src/hysteresis.rs, not a translation of it: a machine
-- of one widget on its own, and its relation to the translated `observe`.
use levshell.Prelude.{
  ℕ, ◌+◌, ◌≡◌, refl, subst, ◌∙◌, inl, inr, Text, text_eq, text_eq_iff, Assoc, Fresh, IsMap,
  Fresh-lookup, lookup, insert, remove, lookup-insert, lookup-remove, text_eq_refl, Option-cases,
  true, false, Option, none, some, [], ◌∷◌, if◌then◌else◌, arith, Bool-cases,
}
use levshell.Prominence.{Prominence, prom_eq}
use levshell.Hysteresis.{
  HysteresisConfig, Transition, Hysteresis, is_ready, ready, commit_all, delay, is_pending, decide,
  decide_all, observe,
}

pub record View : Type 0 where
  pub committed : Option Prominence
  pub pending : Option Transition

abbrev pub view : Hysteresis → Text → View
view h widget = record { committed = lookup widget h.committed; pending = lookup widget h.pending }

-- A due transition that the cascade still asks for is committed.
abbrev pub commit_step : Option Prominence → ℕ → Option Transition → View → View
commit_step asked now none v = v
commit_step asked now (some t) v =
    if is_ready asked now t then record { committed = some t.target; pending = none } else v

-- Then the cascade's target starts, keeps or drops a transition.
abbrev pub decide_step : HysteresisConfig → ℕ → Prominence → View → View
decide_step config now target v = elim v.committed [
  | none ↦ record { committed = some target; pending = none }
  | some current ↦
      if prom_eq current target
      then record { committed = some current; pending = none }
      else if is_pending v.pending target
      then v
      else record {
        committed = some current;
        pending = some (record { target = target; commit_at = now + delay config current target });
      }
]

-- One observation of a widget for which the cascade asks `asked`.
abbrev pub widget_step : HysteresisConfig → ℕ → Option Prominence → View → View
widget_step config now none v = v
widget_step config now (some target) v =
    decide_step config now target (commit_step (some target) now v.pending v)

decide_self :
    (now : ℕ) (h : Hysteresis) (w : Text) (target : Prominence)
    → view (decide now h w target) w ≡ decide_step h.config now target (view h w)
unfolding decide
decide_self now h w target = elim (Option-cases (lookup w h.committed)) [
  | inl e ↦
      rw (e, decide)
        (ground (
          arith,
          text_eq_refl w,
          lookup-insert w w target h.committed,
          lookup-remove w w h.pending,
        ))
  | inr (current, e) ↦
      let next : Transition = record {
        target = target;
        commit_at = now + delay h.config current target;
      } in
      ground
        (arith, e, text_eq_refl w, lookup-insert w w next h.pending, lookup-remove w w h.pending)
]

decide-other :
    (now : ℕ) (h : Hysteresis) (w : Text) (target : Prominence) (j : Text)
    → text_eq w j ≡ false
    → view (decide now h w target) j ≡ view h j
unfolding decide
decide-other now h w target j ne = elim (Option-cases (lookup w h.committed)) [
  | inl e ↦
      rw (e, decide)
        (ground (arith, lookup-insert w j target h.committed, lookup-remove w j h.pending))
  | inr (current, e) ↦
      let next : Transition = record {
        target = target;
        commit_at = now + delay h.config current target;
      } in
      ground (arith, e, lookup-insert w j next h.pending, lookup-remove w j h.pending)
]

pub decide-config :
    (now : ℕ) (h : Hysteresis) (w : Text) (target : Prominence)
    → (decide now h w target).config ≡ h.config
unfolding decide
decide-config now h w target = ground arith

-- What the entries of the cascade ask of the widget `j`.
abbrev decide_asked : HysteresisConfig → ℕ → Option Prominence → View → View
decide_asked config now none v = v
decide_asked config now (some target) v = decide_step config now target v

decide_all-view :
    (now : ℕ) (h : Hysteresis) (cascade : Assoc Prominence) (j : Text)
    → IsMap cascade
    → view (decide_all now h cascade) j ≡ decide_asked h.config now (lookup j cascade) (view h j)
unfolding decide_all lookup
decide_all-view now h [] j m = refl
decide_all-view now h ((w, target) ∷ cascade) j m = elim (Bool-cases (text_eq w j)) [
  | inl e ↦ rw e (
      decide_all-view now (decide now h w target) cascade j m.1
      ∙ rw (Fresh-lookup w j cascade m.0 e) (
          subst (λ x. view (decide now h w target) x ≡ decide_step h.config now target (view h x))
            ((text_eq_iff w j).0 e) (decide_self now h w target)))
  | inr e ↦ rw e (
      decide_all-view now (decide now h w target) cascade j m.1
      ∙ rw (decide-config now h w target, decide-other now h w target j e))
]

-- Every entry of the list is still pending.
abbrev StillPending : Assoc Transition → Hysteresis → Type 0
StillPending es h = (k : Text) (t : Transition) → lookup k es ≡ some t → lookup k h.pending ≡ some t

commit_one : Hysteresis → Text → Transition → Hysteresis
commit_one h w t = record h {
  committed = insert w t.target h.committed;
  pending = remove w h.pending;
}

commit_one-view :
    (h : Hysteresis) (w : Text) (t : Transition) (j : Text)
    → view (commit_one h w t) j
      ≡ (if text_eq w j then record { committed = some t.target; pending = none } else view h j)
unfolding commit_one
commit_one-view h w t j =
    ground (arith, lookup-insert w j t.target h.committed, lookup-remove w j h.pending)

StillPending-tail :
    (w : Text) (t : Transition) (es : Assoc Transition) (h : Hysteresis)
    → Fresh w es
    → StillPending ((w, t) ∷ es) h
    → StillPending es h
unfolding lookup
StillPending-tail w t es h f p k u e = p k u (ground (arith, Fresh-lookup w k es f))

StillPending-commit :
    (w : Text) (t : Transition) (es : Assoc Transition) (h : Hysteresis)
    → Fresh w es
    → StillPending es h
    → StillPending es (commit_one h w t)
unfolding commit_one
StillPending-commit w t es h f p k u e =
    ground (arith, lookup-remove w k h.pending, Fresh-lookup w k es f, p k u e)

due_at :
    (cascade : Assoc Prominence) (now : ℕ) (w : Text) (t : Transition) (es : Assoc Transition)
    (h : Hysteresis) (j : Text)
    → Fresh w es
    → is_ready (lookup w cascade) now t ≡ true
    → commit_step (lookup j cascade) now (lookup j es) (view (commit_one h w t) j)
      ≡ commit_step (lookup j cascade) now (if text_eq w j then some t else lookup j es) (view h j)
due_at cascade now w t es h j f due = elim (Bool-cases (text_eq w j)) [
  | inl e ↦
      let due_j =
        subst (λ x. is_ready (lookup x cascade) now t ≡ true) ((text_eq_iff w j).0 e) due in
      rw (commit_one-view h w t j, e, Fresh-lookup w j es f e, due_j)
  | inr e ↦ rw (commit_one-view h w t j, e)
]

not_due_at :
    (cascade : Assoc Prominence) (now : ℕ) (w : Text) (t : Transition) (es : Assoc Transition)
    (v : View) (j : Text)
    → Fresh w es
    → is_ready (lookup w cascade) now t ≡ false
    → commit_step (lookup j cascade) now (lookup j es) v
      ≡ commit_step (lookup j cascade) now (if text_eq w j then some t else lookup j es) v
not_due_at cascade now w t es v j f due = elim (Bool-cases (text_eq w j)) [
  | inl e ↦
      let due_j =
        subst (λ x. is_ready (lookup x cascade) now t ≡ false) ((text_eq_iff w j).0 e) due in
      rw (e, Fresh-lookup w j es f e, due_j)
  | inr e ↦ rw e
]

-- The due transitions of the list are committed, each for its own widget.
commit_all-view :
    (cascade : Assoc Prominence) (now : ℕ) (es : Assoc Transition) (h : Hysteresis)
    → IsMap es
    → StillPending es h
    → (h' : Hysteresis) × (commit_all h (ready cascade now es) ≡ some h')
      × (h'.config ≡ h.config)
      × ((j : Text) → view h' j ≡ commit_step (lookup j cascade) now (lookup j es) (view h j))
unfolding commit_all ready lookup commit_one
commit_all-view cascade now [] h m p = (h, refl, refl, λ j. refl)
commit_all-view cascade now ((w, t) ∷ es) h m p =
    elim (Bool-cases (is_ready (lookup w cascade) now t)) [
      | inl due ↦
          let (h', runs, config, views) =
            commit_all-view cascade now es (commit_one h w t) m.1
              (StillPending-commit w t es h m.0 (StillPending-tail w t es h m.0 p)) in
          (
            h',
            rw due (rw (p w t (rw (text_eq_refl w)), commit_all) runs),
            config,
            λ j. views j ∙ due_at cascade now w t es h j m.0 due,
          )
      | inr not_due ↦
          let (h', runs, config, views) =
            commit_all-view cascade now es h m.1 (StillPending-tail w t es h m.0 p) in
          (
            h',
            rw not_due runs,
            config,
            λ j. views j ∙ not_due_at cascade now w t es (view h j) j m.0 not_due,
          )
    ]

widget_step-parts :
    (config : HysteresisConfig) (now : ℕ) (asked : Option Prominence) (v : View)
    → decide_asked config now asked (commit_step asked now v.pending v)
      ≡ widget_step config now asked v
widget_step-parts config now none v = ground arith
widget_step-parts config now (some target) v = refl

-- One call of `observe` does not panic, and acts on every widget as the machine `widget_step`: so
-- widgets do not influence one another, and the order in which the maps are walked is not seen.
-- The maps are hash maps, which have each key once.
pub observe-view :
    (h : Hysteresis) (cascade : Assoc Prominence) (now : ℕ)
    → IsMap h.pending
    → IsMap cascade
    → (h' : Hysteresis) × (observe h cascade now ≡ some h')
      × ((j : Text) → view h' j ≡ widget_step h.config now (lookup j cascade) (view h j))
unfolding observe
observe-view h cascade now m c =
    let (h1, runs, config, views) = commit_all-view cascade now h.pending h m (λ k t e. e) in
    (
      decide_all now h1 cascade,
      rw (runs, observe),
      λ j.
          decide_all-view now h1 cascade j c
          ∙ rw (config, views j) (widget_step-parts h.config now (lookup j cascade) (view h j)),
    )
