-- ===== src/Focus/Dwell.antt =====
-- The dwell times of crates/levshell-modules/src/focus/tracker.rs, over runs of `tick`.
use levshell.Prelude.{
  ℕ, ◌≡◌, refl, ◌∙◌, ap, sym, subst, ◌⊎◌, inl, inr, Text, text_eq, text_eq_refl, text_eq_iff, Assoc,
  lookup, insert, remove, lookup-insert, lookup-remove, any_of, Bool, true, false, some, List, [],
  ◌∷◌, ◌++◌, arith, All, Bool-cases,
}
use levshell.Focus.{
  TriggerPhase, TriggerAction, activate, deactivate, TriggerInput, phase, or_inactive, advance,
  visit_all, is_seen, stale, is_engaged, drop_all, tick,
}
use levshell.Focus.Profile.{lookup-visit_all, is_seen-stale}
use levshell.Focus.Reached.{
  History, reached, reached-Explains, Waited, Due, advance-AllDue, noted, Ticks, run, past,
  run-reached,
}

-- Some input of the tick that names `j` finds that `b` has held for long enough.
abbrev pub Earned : Text → Bool → (TriggerInput → ℕ) → List TriggerInput → ℕ → History → Type 0
Earned j b wait [] now h = ⊥
Earned j b wait (input ∷ inputs) now h =
    ((input.profile ≡ j) × Waited b (wait input) input now h)
    ⊎ Earned j b wait inputs now (noted j input now h)

abbrev EarnedBy : List TriggerInput → ℕ → (Text → History) → TriggerAction → Type 0
EarnedBy inputs now h (activate j) = Earned j true (λ i. i.dwell) inputs now (h j)
EarnedBy inputs now h (deactivate j) = Earned j false (λ i. i.exit_dwell) inputs now (h j)

EarnedBy-first :
    (input : TriggerInput) (inputs : List TriggerInput) (now : ℕ) (h : Text → History)
    (a : TriggerAction)
    → Due input now (h input.profile) a
    → EarnedBy (input ∷ inputs) now h a
EarnedBy-first input inputs now h (activate j) (e, w) =
    inl (e, subst (λ k. Waited true input.dwell input now (h k)) e w)
EarnedBy-first input inputs now h (deactivate j) (e, w) =
    inl (e, subst (λ k. Waited false input.exit_dwell input now (h k)) e w)

EarnedBy-later :
    (input : TriggerInput) (inputs : List TriggerInput) (now : ℕ) (h : Text → History)
    (a : TriggerAction)
    → EarnedBy inputs now (λ j. noted j input now (h j)) a
    → EarnedBy (input ∷ inputs) now h a
EarnedBy-later input inputs now h (activate j) w = inr w
EarnedBy-later input inputs now h (deactivate j) w = inr w

All-map :
    {A : Type 0} {P Q : A → Type 0} (f : (a : A) → P a → Q a) (xs : List A) → All P xs → All Q xs
All-map f [] p = tt
All-map f (x ∷ xs) p = (f x p.0, All-map f xs p.1)

All-append : {A : Type 0} (P : A → Type 0) (xs ys : List A) → All P xs → All P ys → All P (xs ++ ys)
All-append P [] ys p q = q
All-append P (x ∷ xs) ys p q = (p.0, All-append P xs ys p.1 q)

-- Every profile's phase is the one that its past leads to.
abbrev AreReached : Assoc TriggerPhase → (Text → History) → Type 0
AreReached phases h = (j : Text) → or_inactive (lookup j phases) ≡ reached (h j)

AreReached-advance :
    (phases : Assoc TriggerPhase) (h : Text → History) (input : TriggerInput) (now : ℕ)
    → AreReached phases h
    → AreReached
        (insert input.profile
          (advance (or_inactive (lookup input.profile phases)) input now).0
          phases)
        (λ j. noted j input now (h j))
unfolding reached
AreReached-advance phases h input now r j =
    let p = (advance (or_inactive (lookup input.profile phases)) input now).0 in
    let found = lookup-insert input.profile j p phases in
    elim (Bool-cases (text_eq input.profile j)) [
      | inl e ↦
          let here : lookup j (insert input.profile p phases) ≡ some p = rw e at found in
          rw (here, e)
            (subst (λ k. p ≡ (advance (reached (h k)) input now).0)
              ((text_eq_iff input.profile j).0 e)
              (ap (λ q. (advance q input now).0) (r input.profile)))
      | inr e ↦
          let here : lookup j (insert input.profile p phases) ≡ lookup j phases = rw e at found in
          rw (here, e) (r j)
    ]

visit_all-AllEarned :
    (inputs : List TriggerInput) (phases : Assoc TriggerPhase) (now : ℕ) (h : Text → History)
    → AreReached phases h
    → All (EarnedBy inputs now h) (visit_all phases inputs now).1
unfolding visit_all
visit_all-AllEarned [] phases now h r = tt
visit_all-AllEarned (input ∷ inputs) phases now h r =
    let step = advance (or_inactive (lookup input.profile phases)) input now in
    let rest = visit_all (insert input.profile step.0 phases) inputs now in
    let due : All (Due input now (h input.profile)) step.1 =
      subst (λ p. All (Due input now (h input.profile)) (advance p input now).1)
        (sym (r input.profile))
        (advance-AllDue (reached (h input.profile)) input now (h input.profile)
          (reached-Explains (h input.profile))) in
    All-append (EarnedBy (input ∷ inputs) now h) step.1 rest.1
      (All-map (EarnedBy-first input inputs now h) step.1 due)
      (All-map (EarnedBy-later input inputs now h) rest.1 (
        visit_all-AllEarned inputs (insert input.profile step.0 phases) now
          (λ j. noted j input now (h j)) (AreReached-advance phases h input now r)))

-- A profile that a dropped name retracts.
abbrev Dropped : List Text → Assoc TriggerPhase → TriggerAction → Type 0
Dropped names phases (activate j) = ⊥
Dropped names phases (deactivate j) =
    (any_of (λ n. text_eq n j) names ≡ true) × (is_engaged (lookup j phases) ≡ true)

Dropped-later :
    (name : Text) (names : List Text) (phases : Assoc TriggerPhase) (a : TriggerAction)
    → Dropped names (remove name phases) a
    → Dropped (name ∷ names) phases a
unfolding any_of
Dropped-later name names phases (activate j) d = d
Dropped-later name names phases (deactivate j) d = elim (Bool-cases (text_eq name j)) [
  | inl e ↦ absurd (ground (arith, d, lookup-remove name j phases))
  | inr e ↦ (rw e d.0, ground (arith, d, lookup-remove name j phases))
]

drop_all-AllDropped :
    (names : List Text) (phases : Assoc TriggerPhase)
    → All (Dropped names phases) (drop_all phases names).1
unfolding drop_all any_of
drop_all-AllDropped [] phases = tt
drop_all-AllDropped (name ∷ names) phases =
    let later =
      All-map (Dropped-later name names phases) (drop_all (remove name phases) names).1
        (drop_all-AllDropped names (remove name phases)) in
    elim (Bool-cases (is_engaged (lookup name phases))) [
      | inl e ↦ rw e ((rw (text_eq_refl name) refl, e), later)
      | inr e ↦ rw e later
    ]

-- What an action of a tick says of the inputs so far.
abbrev pub Justified : Ticks → List TriggerInput → ℕ → TriggerAction → Type 0
Justified older inputs now (activate j) = Earned j true (λ i. i.dwell) inputs now (past j older)
Justified older inputs now (deactivate j) =
    Earned j false (λ i. i.exit_dwell) inputs now (past j older)
    ⊎ ((is_seen inputs j ≡ false) × (is_engaged (phase (run older) j) ≡ true))

EarnedBy-Justified :
    (older : Ticks) (inputs : List TriggerInput) (now : ℕ) (a : TriggerAction)
    → EarnedBy inputs now (λ j. past j older) a
    → Justified older inputs now a
EarnedBy-Justified older inputs now (activate j) w = w
EarnedBy-Justified older inputs now (deactivate j) w = inl w

Dropped-Justified :
    (older : Ticks) (inputs : List TriggerInput) (now : ℕ) (a : TriggerAction)
    → (let visited = (visit_all (run older).phases inputs now).0 in
        Dropped (stale inputs visited) visited a)
    → Justified older inputs now a
unfolding phase
Dropped-Justified older inputs now (activate j) d = absurd d
Dropped-Justified older inputs now (deactivate j) d =
    let phases = (run older).phases in
    let visited = (visit_all phases inputs now).0 in
    elim (Bool-cases (is_seen inputs j)) [
      | inl seen ↦ absurd (let no = sym d.0 ∙ is_seen-stale inputs visited j seen in cc)
      | inr unseen ↦
          let same : lookup j visited ≡ lookup j phases =
            rw unseen at (lookup-visit_all inputs phases now j) in
          inr (unseen, ap is_engaged (sym same) ∙ d.1)
    ]

-- Over every run of ticks from the new tracker, whatever inputs each tick has: a tick activates a
-- profile only if one of its inputs has the profile's predicate true, and the predicate was true in
-- all of the profile's inputs since one that lies the dwell back or more. It deactivates a profile
-- only if, likewise, the predicate is false and was false since one that lies the exit dwell back
-- or more; or if no input of the tick names the profile, which was active or deactivating until
-- then. The inputs meant are those since the last tick that did not name the profile.
pub tick-AllJustified :
    (older : Ticks) (inputs : List TriggerInput) (now : ℕ)
    → All (Justified older inputs now) (tick (run older) inputs now).1
unfolding tick phase
tick-AllJustified older inputs now =
    let phases = (run older).phases in
    let visited = visit_all phases inputs now in
    let dropped = drop_all visited.0 (stale inputs visited.0) in
    All-append (Justified older inputs now) visited.1 dropped.1
      (All-map (EarnedBy-Justified older inputs now) visited.1
        (visit_all-AllEarned inputs phases now (λ j. past j older) (run-reached older)))
      (All-map (Dropped-Justified older inputs now) dropped.1
        (drop_all-AllDropped (stale inputs visited.0) visited.0))
