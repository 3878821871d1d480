-- ===== src/Cascade/Fit.antt =====
-- The demotion loop of crates/levshell-context/src/cascade.rs, for one widget.
use levshell.Prelude.{
  ℕ, zero, suc, ◌+◌, ◌<◌, ◌≡◌, refl, ◌∙◌, Text, text_eq, text_eq_refl, lookup, insert,
  lookup-insert, Bool, true, false, some, List, [], ◌∷◌, if◌then◌else◌, leb, arith, Bool-cases, inl,
  inr,
}
use levshell.Prominence.{
  Prominence, hidden, badge, icon_only, compact, visible, expanded, prom_eq, rank,
}
use levshell.Cascade.{demote_one, Placement, with_widget, fit_widget}

-- The levels that the loop tries, from `p` down.
abbrev pub chain : Prominence → List Prominence
chain hidden = []
chain badge = badge ∷ []
chain icon_only = icon_only ∷ badge ∷ []
chain compact = compact ∷ icon_only ∷ badge ∷ []
chain visible = visible ∷ compact ∷ icon_only ∷ badge ∷ []
chain expanded = expanded ∷ visible ∷ compact ∷ icon_only ∷ badge ∷ []

-- The highest level of the list that fits; `hidden` if none does.
abbrev pub first_fit : (Prominence → Bool) → List Prominence → Prominence
first_fit fits [] = hidden
first_fit fits (p ∷ ps) = if fits p then p else first_fit fits ps

module _ (available gap : ℕ) (width : Text → Prominence → ℕ) where
  abbrev pub fits : Placement → Text → Prominence → Bool
  fits s id p = leb (with_widget available gap width s id p) available

  -- The room that the bar has taken, and the widgets on it, with this widget at level `q`.
  abbrev pub filled : Placement → Text → Prominence → ℕ
  filled s id q = if prom_eq q hidden then s.running else with_widget available gap width s id q

  abbrev pub counted : Placement → Prominence → ℕ
  counted s q = if prom_eq q hidden then s.visible_count else s.visible_count + 1

  -- The widget ends at level `q`; the other widgets keep theirs.
  abbrev pub EndsAt : Placement → Text → Prominence → Placement → Type 0
  EndsAt s id q s' =
      (lookup id s'.prominences ≡ some q)
      × (s'.running ≡ filled s id q)
      × (s'.visible_count ≡ counted s q)
      × ((j : Text) → text_eq id j ≡ false → lookup j s'.prominences ≡ lookup j s.prominences)

  abbrev demoted : Placement → Text → Prominence → Placement
  demoted s id p = record s { prominences = insert id (demote_one p) s.prominences }

  demoted-EndsAt :
      (s s' : Placement) (id : Text) (p q : Prominence)
      → EndsAt (demoted s id p) id q s'
      → EndsAt s id q s'
  demoted-EndsAt s s' id p q (a, b, c, d) =
      (a, b, c, λ j ne. d j ne ∙ rw (lookup-insert id j (demote_one p) s.prominences, ne))

  -- One round that demotes, and more rounds after it.
  step_down :
      (rounds : ℕ) (id : Text) (s s' : Placement) (p : Prominence)
      → lookup id s.prominences ≡ some p
      → prom_eq p hidden ≡ false
      → fits s id p ≡ false
      → prom_eq (demote_one p) hidden ≡ false
      → fit_widget available gap width rounds id (demoted s id p) ≡ some s'
      → fit_widget available gap width (suc rounds) id s ≡ some s'
  unfolding fit_widget
  step_down rounds id s s' p e shown full more runs =
      rw (e, fit_widget) (rw (shown, full, more) runs)

  -- The level fits: the loop ends with the widget placed.
  place_here :
      (rounds : ℕ) (id : Text) (s : Placement) (p : Prominence)
      → lookup id s.prominences ≡ some p
      → prom_eq p hidden ≡ false
      → fits s id p ≡ true
      → (s' : Placement) × (fit_widget available gap width (suc rounds) id s ≡ some s')
        × EndsAt s id p s'
  unfolding fit_widget
  place_here rounds id s p e shown room = (
    record s {
      running = with_widget available gap width s id p;
      visible_count = s.visible_count + 1;
    },
    rw (e, fit_widget) (rw (shown, room)),
    (e, rw shown, rw shown, λ j ne. refl),
  )

  abbrev pub Fitted : ℕ → Text → Placement → Prominence → Type 0
  Fitted rounds id s p =
      (s' : Placement) × (fit_widget available gap width rounds id s ≡ some s')
      × EndsAt s id (first_fit (fits s id) (chain p)) s'

  go_on :
      (rounds : ℕ) (id : Text) (s : Placement) (p : Prominence)
      → lookup id s.prominences ≡ some p
      → prom_eq p hidden ≡ false
      → prom_eq (demote_one p) hidden ≡ false
      → chain p ≡ p ∷ chain (demote_one p)
      → Fitted rounds id (demoted s id p) (demote_one p)
      → Fitted (suc rounds) id s p
  go_on rounds id s p e shown more next (s1, runs, ends) = elim (Bool-cases (fits s id p)) [
    | inl room ↦
        let (s', ran, at) = place_here rounds id s p e shown room in (s', ran, rw (next, room) at)
    | inr full ↦ (
      s1,
      step_down rounds id s s1 p e shown full more runs,
      rw (next, full) (demoted-EndsAt s s1 id p _ ends),
    )
  ]

  lookup-demoted :
      (id : Text) (s : Placement) (p : Prominence)
      → lookup id (demoted s id p).prominences ≡ some (demote_one p)
  lookup-demoted id s p = rw (lookup-insert id id (demote_one p) s.prominences, text_eq_refl id)

  hidden_here :
      (rounds : ℕ) (id : Text) (s : Placement)
      → lookup id s.prominences ≡ some hidden
      → fit_widget available gap width (suc rounds) id s ≡ some s
  unfolding fit_widget
  hidden_here rounds id s e = rw (e, fit_widget)

  badge_down :
      (rounds : ℕ) (id : Text) (s : Placement)
      → lookup id s.prominences ≡ some badge
      → fits s id badge ≡ false
      → fit_widget available gap width (suc rounds) id s ≡ some (demoted s id badge)
  unfolding fit_widget demote_one
  badge_down rounds id s e full = rw (e, fit_widget) (rw full)

  fit_badge :
      (rounds : ℕ) (id : Text) (s : Placement)
      → lookup id s.prominences ≡ some badge
      → Fitted (suc rounds) id s badge
  unfolding demote_one
  fit_badge rounds id s e = elim (Bool-cases (fits s id badge)) [
    | inl room ↦
        let (s', ran, at) = place_here rounds id s badge e refl room in (s', ran, rw room at)
    | inr full ↦ (
      demoted s id badge,
      badge_down rounds id s e full,
      rw full (
          demoted-EndsAt s (demoted s id badge) id badge hidden
            (lookup-demoted id s badge, refl, refl, λ j ne. refl)),
    )
  ]

  fit_rounds :
      (rounds : ℕ) (id : Text) (s : Placement) (p : Prominence)
      → lookup id s.prominences ≡ some p
      → rank p < rounds
      → Fitted rounds id s p
  unfolding demote_one
  fit_rounds zero id s p e h = absurd (omega arith)
  fit_rounds (suc r) id s hidden e h = (s, hidden_here r id s e, (e, refl, refl, λ j ne. refl))
  fit_rounds (suc r) id s badge e h = fit_badge r id s e
  fit_rounds (suc r) id s icon_only e h =
      go_on r id s icon_only e refl refl refl (
        fit_rounds r id (demoted s id icon_only) badge (lookup-demoted id s icon_only)
          (omega arith))
  fit_rounds (suc r) id s compact e h =
      go_on r id s compact e refl refl refl (
        fit_rounds r id (demoted s id compact) icon_only (lookup-demoted id s compact)
          (omega arith))
  fit_rounds (suc r) id s visible e h =
      go_on r id s visible e refl refl refl
        (fit_rounds r id (demoted s id visible) compact (lookup-demoted id s visible) (omega arith))
  fit_rounds (suc r) id s expanded e h =
      go_on r id s expanded e refl refl refl (
        fit_rounds r id (demoted s id expanded) visible (lookup-demoted id s expanded)
          (omega arith))

  -- Six rounds always end the demotion loop of a widget. It is left at the highest of its levels,
  -- from the one asked for down, at which the bar still has room, and hidden if there is none; the
  -- room taken and the count of shown widgets grow by just this widget, and no other widget changes.
  pub fit_widget_lem :
      (id : Text) (s : Placement) (p : Prominence)
      → lookup id s.prominences ≡ some p
      → Fitted 6 id s p
  fit_widget_lem id s p e = fit_rounds 6 id s p e (rank-lt p)
    where
      rank-lt : (q : Prominence) → rank q < 6
      rank-lt q = ground arith
