-- ===== src/Focus/Follow.antt =====
-- What a listener that obeys the actions of crates/levshell-modules/src/focus/tracker.rs believes.
use levshell.Prelude.{
  ℕ, ◌≡◌, refl, ◌∙◌, ap, sym, Option, inl, inr, Text, text_eq, text_eq_iff, Assoc, lookup, insert,
  remove, lookup-insert_same, lookup-insert_other, lookup-remove, Bool, true, false, List, [], ◌∷◌,
  ◌++◌, if◌then◌else◌, arith, Bool-cases, some, none,
}
use levshell.Focus.{
  TriggerPhase, inactive, activating, active, deactivating, TriggerAction, activate, deactivate,
  TriggerInput, FocusModeTracker, or_inactive, advance, visit_all, stale, is_engaged, drop_all,
  tick,
}

-- Whether the profile `j` is active for a listener that held `on` and obeys the actions in turn.
unfoldable pub follow : Text → Bool → List TriggerAction → Bool
follow j on [] = on
follow j on (activate p ∷ actions) = follow j (if text_eq p j then true else on) actions
follow j on (deactivate p ∷ actions) = follow j (if text_eq p j then false else on) actions

follow-none : (j : Text) (on : Bool) → follow j on [] ≡ on
unfolding follow
follow-none j on = refl

follow-append :
    (j : Text) (on : Bool) (xs ys : List TriggerAction)
    → follow j on (xs ++ ys) ≡ follow j (follow j on xs) ys
unfolding follow
follow-append j on [] ys = refl
follow-append j on (activate p ∷ xs) ys = follow-append j (if text_eq p j then true else on) xs ys
follow-append j on (deactivate p ∷ xs) ys =
    follow-append j (if text_eq p j then false else on) xs ys

follow-advance_self :
    (p : TriggerPhase) (input : TriggerInput) (now : ℕ) (j : Text)
    → text_eq input.profile j ≡ true
    → follow j (is_engaged (some p)) (advance p input now).1
      ≡ is_engaged (some (advance p input now).0)
unfolding advance follow
follow-advance_self inactive input now j e = ground arith
follow-advance_self (activating since) input now j e = ground arith
follow-advance_self active input now j e = ground arith
follow-advance_self (deactivating since) input now j e = ground arith

follow-advance_other :
    (p : TriggerPhase) (input : TriggerInput) (now : ℕ) (j : Text) (on : Bool)
    → text_eq input.profile j ≡ false
    → follow j on (advance p input now).1 ≡ on
unfolding advance follow
follow-advance_other inactive input now j on e = ground arith
follow-advance_other (activating since) input now j on e = ground arith
follow-advance_other active input now j on e = ground arith
follow-advance_other (deactivating since) input now j on e = ground arith

engaged-or_inactive : (o : Option TriggerPhase) → is_engaged (some (or_inactive o)) ≡ is_engaged o
engaged-or_inactive none = refl
engaged-or_inactive (some p) = refl

-- What one input tells the listener is what it does to the map.
follow-visit :
    (phases : Assoc TriggerPhase) (input : TriggerInput) (now : ℕ) (j : Text)
    → follow j
        (is_engaged (lookup j phases))
        (advance (or_inactive (lookup input.profile phases)) input now).1
      ≡ is_engaged (
          lookup j (
            insert input.profile
              (advance (or_inactive (lookup input.profile phases)) input now).0
              phases))
follow-visit phases input now j =
    let old = or_inactive (lookup input.profile phases) in
    let step = advance old input now in
    elim (Bool-cases (text_eq input.profile j)) [
      | inl e ↦
          ap (λ on. follow j on step.1)
            (sym (
              engaged-or_inactive (lookup input.profile phases)
              ∙ ap (λ k. is_engaged (lookup k phases)) ((text_eq_iff input.profile j).0 e)))
          ∙ follow-advance_self old input now j e
          ∙ ap is_engaged (sym (lookup-insert_same input.profile j step.0 phases e))
      | inr e ↦
          follow-advance_other old input now j (is_engaged (lookup j phases)) e
          ∙ ap is_engaged (sym (lookup-insert_other input.profile j step.0 phases e))
    ]

follow-visit_all :
    (inputs : List TriggerInput) (phases : Assoc TriggerPhase) (now : ℕ) (j : Text)
    → follow j (is_engaged (lookup j phases)) (visit_all phases inputs now).1
      ≡ is_engaged (lookup j (visit_all phases inputs now).0)
unfolding visit_all
follow-visit_all [] phases now j = follow-none j (is_engaged (lookup j phases))
follow-visit_all (input ∷ inputs) phases now j =
    let step = advance (or_inactive (lookup input.profile phases)) input now in
    let next = insert input.profile step.0 phases in
    follow-append j (is_engaged (lookup j phases)) step.1 (visit_all next inputs now).1
    ∙ ap (λ on. follow j on (visit_all next inputs now).1) (follow-visit phases input now j)
    ∙ follow-visit_all inputs next now j

follow-drop_all :
    (names : List Text) (phases : Assoc TriggerPhase) (j : Text)
    → follow j (is_engaged (lookup j phases)) (drop_all phases names).1
      ≡ is_engaged (lookup j (drop_all phases names).0)
unfolding drop_all follow
follow-drop_all [] phases j = refl
follow-drop_all (name ∷ names) phases j = ground (
  arith,
  follow-drop_all names (remove name phases) j,
  lookup-remove name j phases,
  text_eq_iff name j,
)

-- Obeying the actions of a tick, a listener that held a profile active exactly when its phase was
-- active or deactivating does so afterwards too, whatever the inputs, repeated profiles and
-- profiles that have gone from the configuration included.
pub tick-follows :
    (t : FocusModeTracker) (inputs : List TriggerInput) (now : ℕ) (j : Text)
    → follow j (is_engaged (lookup j t.phases)) (tick t inputs now).1
      ≡ is_engaged (lookup j (tick t inputs now).0.phases)
unfolding tick
tick-follows t inputs now j =
    let visited = visit_all t.phases inputs now in
    let names = stale inputs visited.0 in
    follow-append j (is_engaged (lookup j t.phases)) visited.1 (drop_all visited.0 names).1
    ∙ ap (λ on. follow j on (drop_all visited.0 names).1) (follow-visit_all inputs t.phases now j)
    ∙ follow-drop_all names visited.0 j
