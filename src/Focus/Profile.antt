-- ===== src/Focus/Profile.antt =====
-- One profile of crates/levshell-modules/src/focus/tracker.rs, taken alone.
use levshell.Prelude.{
  ℕ, ◌≡◌, refl, ◌∙◌, sym, ap, inl, inr, Text, text_eq, text_eq_iff, Assoc, lookup, insert, remove,
  lookup-insert_same, lookup-insert_other, lookup-remove, any_of, filter_by, Bool, true, false,
  Option, none, some, List, [], ◌∷◌, if◌then◌else◌, arith, Bool-cases,
}
use levshell.Focus.{
  TriggerPhase, TriggerInput, FocusModeTracker, or_inactive, advance, visit_all, is_seen, stale,
  drop_all, tick, phase,
}

-- The phase of a profile after its own inputs, in turn.
unfoldable pub alone : Text → TriggerPhase → List TriggerInput → ℕ → TriggerPhase
alone j p [] now = p
alone j p (input ∷ inputs) now =
    if text_eq input.profile j
    then alone j (advance p input now).0 inputs now
    else alone j p inputs now

alone-unseen :
    (j : Text) (p : TriggerPhase) (inputs : List TriggerInput) (now : ℕ)
    → is_seen inputs j ≡ false
    → alone j p inputs now ≡ p
unfolding alone is_seen any_of
alone-unseen j p [] now h = refl
alone-unseen j p (input ∷ inputs) now h = ground (arith, alone-unseen j p inputs now)

pub lookup-visit_all :
    (inputs : List TriggerInput) (phases : Assoc TriggerPhase) (now : ℕ) (j : Text)
    → lookup j (visit_all phases inputs now).0 ≡ (
        if is_seen inputs j
        then some (alone j (or_inactive (lookup j phases)) inputs now)
        else lookup j phases)
unfolding visit_all is_seen any_of alone
lookup-visit_all [] phases now j = refl
lookup-visit_all (input ∷ inputs) phases now j =
    let new_phase = (advance (or_inactive (lookup input.profile phases)) input now).0 in
    let next = insert input.profile new_phase phases in
    let rest = lookup-visit_all inputs next now j in
    elim (Bool-cases (text_eq input.profile j)) [
      | inl e ↦
          let mine : new_phase ≡ (advance (or_inactive (lookup j phases)) input now).0 =
            ap (λ k. (advance (or_inactive (lookup k phases)) input now).0)
              ((text_eq_iff input.profile j).0 e) in
          let found : lookup j next ≡ some (advance (or_inactive (lookup j phases)) input now).0 =
            lookup-insert_same input.profile j new_phase phases e ∙ ap some mine in
          rw e (rest ∙ either (is_seen inputs j) refl (lookup j next) _ found)
      | inr e ↦
          let found : lookup j next ≡ lookup j phases =
            lookup-insert_other input.profile j new_phase phases e in
          rw e (
            rest
            ∙ ap (λ o. if is_seen inputs j then some (alone j (or_inactive o) inputs now) else o)
                found)
    ]
  where
    either :
        (seen : Bool)
        → is_seen inputs j ≡ seen
        → (o : Option TriggerPhase) (p : TriggerPhase) → o ≡ some p
        → (if seen then some (alone j (or_inactive o) inputs now) else o)
          ≡ some (alone j p inputs now)
    either true h o p e = ap (λ x. some (alone j (or_inactive x) inputs now)) e
    either false h o p e = e ∙ ap some (sym (alone-unseen j p inputs now h))

lookup-drop_all :
    (names : List Text) (phases : Assoc TriggerPhase) (j : Text)
    → lookup j (drop_all phases names).0
      ≡ (if any_of (λ n. text_eq n j) names then none else lookup j phases)
unfolding drop_all any_of
lookup-drop_all [] phases j = refl
lookup-drop_all (name ∷ names) phases j =
    ground (arith, lookup-drop_all names (remove name phases) j, lookup-remove name j phases)

pub is_seen-stale :
    (inputs : List TriggerInput) (phases : Assoc TriggerPhase) (j : Text)
    → is_seen inputs j ≡ true
    → any_of (λ n. text_eq n j) (stale inputs phases) ≡ false
unfolding stale any_of filter_by
is_seen-stale inputs [] j seen = refl
is_seen-stale inputs ((k, p) ∷ phases) j seen =
    ground (arith, is_seen-stale inputs phases j seen, text_eq_iff k j)

unseen-stale :
    (inputs : List TriggerInput) (phases : Assoc TriggerPhase) (j : Text)
    → is_seen inputs j ≡ false
    → any_of (λ n. text_eq n j) (stale inputs phases) ≡ false
    → lookup j phases ≡ none
unfolding stale any_of filter_by lookup
unseen-stale inputs [] j unseen clear = refl
unseen-stale inputs ((k, p) ∷ phases) j unseen clear =
    ground (arith, unseen-stale inputs phases j unseen, text_eq_iff k j)

-- After a tick a profile that the inputs name is in the phase that its own inputs alone lead to
-- from its phase before, and no other profile has a phase.
pub phase-tick :
    (t : FocusModeTracker) (inputs : List TriggerInput) (now : ℕ) (j : Text)
    → phase (tick t inputs now).0 j
      ≡ (if is_seen inputs j then some (alone j (or_inactive (phase t j)) inputs now) else none)
unfolding tick phase
phase-tick t inputs now j =
    let visited = (visit_all t.phases inputs now).0 in
    lookup-drop_all (stale inputs visited) visited j
    ∙ ground (
      arith,
      lookup-visit_all inputs t.phases now j,
      is_seen-stale inputs visited j,
      unseen-stale inputs visited j,
    )
