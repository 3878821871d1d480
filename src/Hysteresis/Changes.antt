-- ===== src/Hysteresis/Changes.antt =====
-- When the machine of one widget of crates/levshell-context/src/hysteresis.rs changes its level.
use levshell.Prelude.{
  ℕ, ◌+◌, ◌≤◌, ◌≡◌, ◌≢◌, ◌⊎◌, inl, inr, refl, true, none, some, [], ◌∷◌, arith, Bool-cases,
  Option-cases, leb, le→leb, leb→le, ◌∙◌, sym, ap, ◌<◌,
}
use levshell.Prominence.{Prominence, prom_eq, prom_eq_iff}
use levshell.Hysteresis.{HysteresisConfig, Transition, delay, is_ready}
use levshell.Hysteresis.Widget.{View, widget_step, commit_step}
use levshell.Hysteresis.Machine.{
  History, after, steady_since, IsSettled, IsWaiting, after-IsTimed, step-IsSettled,
}

-- With no transition due, the committed level stays.
not_due-committed :
    (config : HysteresisConfig) (now : ℕ) (target : Prominence) (s : View) (c : Prominence)
    → commit_step (some target) now s.pending s ≡ s
    → s.committed ≡ some c
    → (widget_step config now (some target) s).committed ≡ some c
not_due-committed config now target s c same e = rw same (ground arith)

-- What a commit needs: the transition was waiting for the level that is asked for, and is due.
commit_needs :
    (config : HysteresisConfig) (now : ℕ) (since : Prominence → ℕ) (asked target : Prominence)
    (s : View) (c d : Prominence)
    → IsSettled s asked ⊎ IsWaiting config s asked (since asked)
    → s.committed ≡ some c
    → (widget_step config now (some target) s).committed ≡ some d
    → c ≢ d
    → (d ≡ target) × (asked ≡ target) × (since target + delay config c target ≤ now)
commit_needs config now since asked target s c d (inl settled) e e' ne =
    let kept = not_due-committed config now target s c (rw (settled.0) refl) e in absurd (ne (cc))
commit_needs config now since asked target s c d (inr (c', k, differ, p)) e e' ne =
    let t : Transition = record {
      target = asked;
      commit_at = since asked + delay config c' asked;
    } in
    elim (Bool-cases (is_ready (some target) now t)) [
      | inl due ↦ ground (arith, prom_eq_iff target asked, prom_eq_iff target target)
      | inr early ↦
          let kept = not_due-committed config now target s c (rw p (rw early)) e in absurd (ne (cc))
    ]

due_waiting :
    (config : HysteresisConfig) (now since : ℕ) (target c : Prominence) (s : View)
    → IsSettled s target ⊎ IsWaiting config s target since
    → s.committed ≡ some c
    → since + delay config c target ≤ now
    → IsSettled (widget_step config now (some target) s) target
due_waiting config now since target c s (inl settled) e due =
    step-IsSettled config now target s settled
due_waiting config now since target c s (inr (c', k, ne, p)) e due =
    let same : c ≡ c' = cc in
    let ready : leb (since + delay config c' target) now ≡ true = rw (← same) (le→leb _ _ due) in
    ground (arith, prom_eq_iff target target)

-- The committed level stays, or it was not known, or it changes to the level asked for, which has
-- been asked for throughout the delay.
abbrev pub Moves : HysteresisConfig → ℕ → Prominence → History → View → View → Type 0
Moves config now target h s s' =
    (s'.committed ≡ s.committed)
    ⊎ ((s.committed ≡ none)
        ⊎ ((c : Prominence) × (s.committed ≡ some c)
            × (s'.committed ≡ some target)
            × (steady_since now target h + delay config c target ≤ now)))

commits_some :
    (config : HysteresisConfig) (now : ℕ) (target c : Prominence) (s : View)
    → s.committed ≡ some c
    → (d : Prominence) × ((widget_step config now (some target) s).committed ≡ some d)
commits_some config now target c s e =
    elim (Option-cases (widget_step config now (some target) s).committed) [
      | inl gone ↦ absurd (ground arith)
      | inr found ↦ found
    ]

needs_delay :
    (config : HysteresisConfig) (v : View) (h : History) (now : ℕ) (target c d : Prominence)
    → v.pending ≡ none
    → (after config v h).committed ≡ some c
    → (after config v ((now, target) ∷ h)).committed ≡ some d
    → c ≢ d
    → (d ≡ target) × (steady_since now target h + delay config c target ≤ now)
needs_delay config v [] now target c d p e e' ne =
    let kept = not_due-committed config now target v c (rw p refl) e in absurd (ne (cc))
needs_delay config v ((before, asked) ∷ older) now target c d p e e' ne =
    let since : Prominence → ℕ = λ q. steady_since before q older in
    let (same, steady, due) =
      commit_needs config now since asked target (after config v ((before, asked) ∷ older)) c d
        (after-IsTimed config v ((before, asked) ∷ older) p) e e' ne in
    (same, rw ((prom_eq_iff asked target).1 steady) due)

pub after-Moves :
    (config : HysteresisConfig) (v : View) (h : History) (now : ℕ) (target : Prominence)
    → v.pending ≡ none
    → Moves config now target h (after config v h) (after config v ((now, target) ∷ h))
after-Moves config v h now target p = elim (Option-cases (after config v h).committed) [
  | inl unknown ↦ inr (inl unknown)
  | inr (c, e) ↦
      let (d, e') = commits_some config now target c (after config v h) e in
      elim (Bool-cases (prom_eq c d)) [
        | inl same ↦ inl (e' ∙ sym (ap some ((prom_eq_iff c d).0 same)) ∙ sym e)
        | inr differ ↦
            let ne : c ≢ d = λ q. let no = sym ((prom_eq_iff c d).1 q) ∙ differ in cc in
            let (asked, due) = needs_delay config v h now target c d p e e' ne in
            inr (inr (c, e, e' ∙ ap some asked, due))
      ]
]

-- Asked for `target` again: it is committed with nothing pending, or another level is and the delay
-- is not over.
pub after-Settles :
    (config : HysteresisConfig) (v : View) (older : History) (before now : ℕ) (target : Prominence)
    → v.pending ≡ none
    → IsSettled (after config v ((now, target) ∷ (before, target) ∷ older)) target
      ⊎ ((c : Prominence) × ((after config v ((before, target) ∷ older)).committed ≡ some c)
          × (c ≢ target)
          × (now < steady_since before target older + delay config c target))
after-Settles config v older before now target p =
    settles (after config v ((before, target) ∷ older)) (steady_since before target older)
      (after-IsTimed config v ((before, target) ∷ older) p)
  where
    settles :
        (s : View) (since : ℕ)
        → IsSettled s target ⊎ IsWaiting config s target since
        → IsSettled (widget_step config now (some target) s) target
          ⊎ ((c : Prominence) × (s.committed ≡ some c)
              × (c ≢ target)
              × (now < since + delay config c target))
    settles s since (inl settled) = inl (step-IsSettled config now target s settled)
    settles s since (inr (c, e, differ, waits)) =
        elim (Bool-cases (leb (since + delay config c target) now)) [
          | inl due ↦ inl (
              due_waiting config now since target c s (inr (c, e, differ, waits)) e
                (leb→le _ _ due))
          | inr early ↦
              let other : c ≢ target =
                λ q. let no = sym ((prom_eq_iff c target).1 q) ∙ differ in cc in
              inr (c, e, other, ground arith)
        ]
