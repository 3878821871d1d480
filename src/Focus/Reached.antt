-- ===== src/Focus/Reached.antt =====
-- The phases of crates/levshell-modules/src/focus/tracker.rs, over runs of `tick`.
use levshell.Prelude.{
  ℕ, ◌-◌, ◌≤◌, ◌≡◌, refl, ◌∙◌, ap, ◌⊎◌, inl, inr, Text, text_eq, lookup, Bool, true, false, List,
  [], ◌∷◌, arith, leb, leb→le, All, Bool-cases, if◌then◌else◌,
}
use levshell.Focus.{
  TriggerPhase, inactive, activating, active, deactivating, TriggerAction, activate, deactivate,
  TriggerInput, FocusModeTracker, new, phase, or_inactive, advance, is_seen, tick,
}
use levshell.Focus.Profile.{alone, phase-tick}

-- The inputs of one profile and their times, the newest first.
abbrev pub History : Type 0
History = List (TriggerInput × ℕ)

-- The phase that they lead to from the start.
unfoldable pub reached : History → TriggerPhase
reached [] = inactive
reached ((input, now) ∷ past) = (advance (reached past) input now).0

-- The predicate had the value `b` at every tick from one at time `since` to the newest.
abbrev pub HeldSince : Bool → ℕ → History → Type 0
HeldSince b since [] = ⊥
HeldSince b since ((input, now) ∷ past) =
    (input.predicate ≡ b) × ((now ≡ since) ⊎ HeldSince b since past)

-- What a phase says of the past.
abbrev pub Explains : TriggerPhase → History → Type 0
Explains inactive past = Unit
Explains (activating since) past = HeldSince true since past
Explains active past = Unit
Explains (deactivating since) past = HeldSince false since past

Explains-advance :
    (p : TriggerPhase) (input : TriggerInput) (now : ℕ) (past : History)
    → Explains p past
    → Explains (advance p input now).0 ((input, now) ∷ past)
unfolding advance
Explains-advance inactive input now past h = ground arith
Explains-advance (activating since) input now past h = ground arith
Explains-advance active input now past h = ground arith
Explains-advance (deactivating since) input now past h = ground arith

pub reached-Explains : (past : History) → Explains (reached past) past
unfolding reached
reached-Explains [] = tt
reached-Explains ((input, now) ∷ past) =
    Explains-advance (reached past) input now past (reached-Explains past)

-- What an input that names `j`, after the past `h` of `j`, needs for an action.
abbrev pub Waited : Bool → ℕ → TriggerInput → ℕ → History → Type 0
Waited b wait input now h =
    (input.predicate ≡ b) × ((since : ℕ) × HeldSince b since h × (wait ≤ now - since))

-- What one input on its own may make the tracker do.
abbrev pub Due : TriggerInput → ℕ → History → TriggerAction → Type 0
Due input now h (activate j) = (input.profile ≡ j) × Waited true input.dwell input now h
Due input now h (deactivate j) = (input.profile ≡ j) × Waited false input.exit_dwell input now h

pub advance-AllDue :
    (p : TriggerPhase) (input : TriggerInput) (now : ℕ) (h : History)
    → Explains p h
    → All (Due input now h) (advance p input now).1
unfolding advance
advance-AllDue inactive input now h e = ground arith
advance-AllDue (activating since) input now h e = elim (Bool-cases input.predicate) [
  | inl on ↦ elim (Bool-cases (leb input.dwell (now - since))) [
    | inl due ↦ rw (on, due) ((refl, (refl, (since, e, leb→le _ _ due))), tt)
    | inr early ↦ rw (on, early) tt
  ]
  | inr off ↦ rw off tt
]
advance-AllDue active input now h e = ground arith
advance-AllDue (deactivating since) input now h e = elim (Bool-cases input.predicate) [
  | inl on ↦ rw on tt
  | inr off ↦ elim (Bool-cases (leb input.exit_dwell (now - since))) [
    | inl due ↦ rw (off, due) ((refl, (refl, (since, e, leb→le _ _ due))), tt)
    | inr early ↦ rw (off, early) tt
  ]
]

-- The past of `j` with one input more, if it names `j`.
abbrev pub noted : Text → TriggerInput → ℕ → History → History
noted j input now h = if text_eq input.profile j then (input, now) ∷ h else h

unfoldable pub noted_all : Text → List TriggerInput → ℕ → History → History
noted_all j [] now h = h
noted_all j (input ∷ inputs) now h = noted_all j inputs now (noted j input now h)

-- The inputs of each tick and its time, the newest first.
abbrev pub Ticks : Type 0
Ticks = List (List TriggerInput × ℕ)

unfoldable pub run : Ticks → FocusModeTracker
run [] = new
run ((inputs, now) ∷ older) = (tick (run older) inputs now).0

-- The inputs of `j` since the last tick that did not name it.
unfoldable pub past : Text → Ticks → History
past j [] = []
past j ((inputs, now) ∷ older) =
    let h = past j older in if is_seen inputs j then noted_all j inputs now h else []

alone-reached :
    (j : Text) (h : History) (inputs : List TriggerInput) (now : ℕ)
    → alone j (reached h) inputs now ≡ reached (noted_all j inputs now h)
unfolding alone reached noted_all
alone-reached j h [] now = refl
alone-reached j h (input ∷ inputs) now = elim (Bool-cases (text_eq input.profile j)) [
  | inl e ↦ rw e (alone-reached j ((input, now) ∷ h) inputs now)
  | inr e ↦ rw e (alone-reached j h inputs now)
]

-- After a run a profile is in the phase that its own past leads to.
pub run-reached :
    (ticks : Ticks) (j : Text) → or_inactive (phase (run ticks) j) ≡ reached (past j ticks)
unfolding run past reached phase new lookup
run-reached [] j = refl
run-reached ((inputs, now) ∷ older) j = elim (Bool-cases (is_seen inputs j)) [
  | inl e ↦
      ap or_inactive (phase-tick (run older) inputs now j)
      ∙ rw e (
          ap (λ p. alone j p inputs now) (run-reached older j)
          ∙ alone-reached j (past j older) inputs now)
  | inr e ↦ ap or_inactive (phase-tick (run older) inputs now j) ∙ rw e refl
]
