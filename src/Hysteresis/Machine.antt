-- ===== src/Hysteresis/Machine.antt =====
-- The machine of one widget of crates/levshell-context/src/hysteresis.rs, over the calls that name it.
use levshell.Prelude.{
  ℕ, ◌+◌, ◌≡◌, ◌⊎◌, inl, inr, refl, subst, false, none, some, List, [], ◌∷◌, if◌then◌else◌, arith,
  Bool-cases, Option-cases, leb,
}
use levshell.Prominence.{Prominence, prom_eq, prom_eq_iff}
use levshell.Hysteresis.{HysteresisConfig, delay}
use levshell.Hysteresis.Widget.{View, widget_step}

-- What the cascade asked for one widget, and when; the newest call stands first.
abbrev pub History : Type 0
History = List (ℕ × Prominence)

abbrev pub after : HysteresisConfig → View → History → View
after config v [] = v
after config v ((now, target) ∷ older) = widget_step config now (some target) (after config v older)

-- Since when every observation has asked for `target`; `now` if the last one did not.
abbrev pub steady_since : ℕ → Prominence → History → ℕ
steady_since now target [] = now
steady_since now target ((then_, asked) ∷ older) =
    if prom_eq asked target then steady_since then_ target older else now

-- After an observation that asks for `target`, either `target` is committed and nothing is pending,
-- or the transition to it is due its delay after it was first asked for without a break.
abbrev pub IsSettled : View → Prominence → Type 0
IsSettled s target = (s.pending ≡ none) × (s.committed ≡ some target)

abbrev pub IsWaiting : HysteresisConfig → View → Prominence → ℕ → Type 0
IsWaiting config s target since =
    (c : Prominence) × (s.committed ≡ some c)
    × (prom_eq c target ≡ false)
    × (s.pending ≡ some (record { target = target; commit_at = since + delay config c target }))

abbrev pub IsTimed : HysteresisConfig → View → History → Type 0
IsTimed config s [] = s.pending ≡ none
IsTimed config s ((now, target) ∷ older) =
    IsSettled s target ⊎ IsWaiting config s target (steady_since now target older)

-- One more observation of a widget with nothing pending.
step_idle :
    (config : HysteresisConfig) (now : ℕ) (target : Prominence) (s : View)
    → s.pending ≡ none
    → IsSettled (widget_step config now (some target) s) target
      ⊎ IsWaiting config (widget_step config now (some target) s) target now
step_idle config now target s p = elim (Option-cases s.committed) [
  | inl e ↦ inl (rw (p, e) (refl, refl))
  | inr (c, e) ↦ elim (Bool-cases (prom_eq c target)) [
    | inl same ↦ inl (ground (arith, prom_eq_iff c target))
    | inr differ ↦ inr (c, ground arith, differ, ground arith)
  ]
]

pub step-IsSettled :
    (config : HysteresisConfig) (now : ℕ) (target : Prominence) (s : View)
    → IsSettled s target
    → IsSettled (widget_step config now (some target) s) target
step-IsSettled config now target s p = ground (arith, prom_eq_iff target target)

step-IsWaiting_same :
    (config : HysteresisConfig) (now since : ℕ) (target : Prominence) (s : View)
    → IsWaiting config s target since
    → IsSettled (widget_step config now (some target) s) target
      ⊎ IsWaiting config (widget_step config now (some target) s) target since
step-IsWaiting_same config now since target s (c, e, ne, p) =
    elim (Bool-cases (leb (since + delay config c target) now)) [
      | inl due ↦ inl (ground (arith, prom_eq_iff target target))
      | inr early ↦ inr (
        c,
        ground (arith, prom_eq_iff target target),
        ne,
        ground (arith, prom_eq_iff target target),
      )
    ]

step-IsWaiting_other :
    (config : HysteresisConfig) (now since : ℕ) (old target : Prominence) (s : View)
    → prom_eq old target ≡ false
    → IsWaiting config s old since
    → IsSettled (widget_step config now (some target) s) target
      ⊎ IsWaiting config (widget_step config now (some target) s) target now
step-IsWaiting_other config now since old target s differ (c, e, ne, p) =
    elim (Bool-cases (prom_eq c target)) [
      | inl same ↦ inl (ground (arith, prom_eq_iff c target, prom_eq_iff old target))
      | inr other ↦
          inr (
            c,
            ground (arith, prom_eq_iff old target),
            other,
            ground (arith, prom_eq_iff old target),
          )
    ]

next_timed :
    (config : HysteresisConfig) (now : ℕ) (since : Prominence → ℕ) (asked target : Prominence)
    (s : View)
    → IsSettled s asked ⊎ IsWaiting config s asked (since asked)
    → IsSettled (widget_step config now (some target) s) target
      ⊎ IsWaiting config
          (widget_step config now (some target) s)
          target
          (if prom_eq asked target then since target else now)
next_timed config now since asked target s t = elim (Bool-cases (prom_eq asked target)) [
  | inl same ↦
      let e = (prom_eq_iff asked target).0 same in
      rw same (run (subst (λ a. IsSettled s a ⊎ IsWaiting config s a (since a)) e t))
  | inr differ ↦ rw differ (change t differ)
]
  where
    run :
        IsSettled s target ⊎ IsWaiting config s target (since target)
        → IsSettled (widget_step config now (some target) s) target
          ⊎ IsWaiting config (widget_step config now (some target) s) target (since target)
    run (inl settled) = inl (step-IsSettled config now target s settled)
    run (inr waiting) = step-IsWaiting_same config now (since target) target s waiting

    change :
        IsSettled s asked ⊎ IsWaiting config s asked (since asked)
        → prom_eq asked target ≡ false
        → IsSettled (widget_step config now (some target) s) target
          ⊎ IsWaiting config (widget_step config now (some target) s) target now
    change (inl settled) differ = step_idle config now target s settled.0
    change (inr waiting) differ =
        step-IsWaiting_other config now (since asked) asked target s differ waiting

pub after-IsTimed :
    (config : HysteresisConfig) (v : View) (h : History)
    → v.pending ≡ none
    → IsTimed config (after config v h) h
after-IsTimed config v [] p = p
after-IsTimed config v ((now, target) ∷ []) p = step_idle config now target v p
after-IsTimed config v ((now, target) ∷ (before, asked) ∷ older) p =
    next_timed config now (λ p. steady_since before p older) asked target
      (after config v ((before, asked) ∷ older))
      (after-IsTimed config v ((before, asked) ∷ older) p)
