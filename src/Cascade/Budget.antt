-- ===== src/Cascade/Budget.antt =====
-- The room that step 4 of crates/levshell-context/src/cascade.rs takes on the bar.
use levshell.Prelude.{
  ℕ, ◌+◌, ◌≤◌, ◌<◌, ◌≡◌, refl, ◌∙◌, Text, text_eq, text_eq_iff, Assoc, lookup, Bool, true, false,
  some, List, [], ◌∷◌, if◌then◌else◌, leb→le, arith, Bool-cases, ◌⊎◌, inl, inr, ap, u32_max,
  saturating_add,
}
use levshell.Prominence.{Prominence, hidden, prom_eq}
use levshell.Rules.{WidgetDef}
use levshell.Cascade.{gap_for, get_or_hidden, Placement, fit_all}
use levshell.Cascade.Fit.{chain, first_fit, fits, EndsAt, fit_widget_lem}

-- The pixels that the widgets of the list take, in this order, with `count` widgets before them:
-- nothing if hidden, else the width and the gap in front of every widget but the first.
abbrev pub used : ℕ → (Text → Prominence → ℕ) → Assoc Prominence → List WidgetDef → ℕ → ℕ
used gap width m [] count = 0
used gap width m (w ∷ ws) count =
    let p = get_or_hidden (lookup w.id m) in
    if prom_eq p hidden
    then used gap width m ws count
    else width w.id p + gap_for gap count + used gap width m ws (count + 1)

-- Every widget has a level.
abbrev pub AllKnown : Assoc Prominence → List WidgetDef → Type 0
AllKnown m [] = Unit
AllKnown m (w ∷ ws) = ((p : Prominence) × (lookup w.id m ≡ some p)) × AllKnown m ws

-- The ids are distinct.
abbrev pub NotIn : Text → List WidgetDef → Type 0
NotIn id [] = Unit
NotIn id (w ∷ ws) = (text_eq id w.id ≡ false) × NotIn id ws

abbrev pub IsDistinct : List WidgetDef → Type 0
IsDistinct [] = Unit
IsDistinct (w ∷ ws) = NotIn w.id ws × IsDistinct ws

AllKnown-keep :
    (m m' : Assoc Prominence) (id : Text) (ws : List WidgetDef)
    → ((j : Text) → text_eq id j ≡ false → lookup j m' ≡ lookup j m)
    → NotIn id ws
    → AllKnown m ws
    → AllKnown m' ws
AllKnown-keep m m' id [] same n k = tt
AllKnown-keep m m' id (w ∷ ws) same n ((p, e), k) =
    ((p, same w.id n.0 ∙ e), AllKnown-keep m m' id ws same n.1 k)

-- Nothing saturates below the largest u32: what the bar is filled to is an exact sum.
saturating-exact :
    (a b c available : ℕ)
    → available < u32_max
    → saturating_add (saturating_add a b) c ≤ available
    → saturating_add (saturating_add a b) c ≡ a + b + c
saturating-exact a b c available h k = omega arith

first_fit-fits :
    (test : Prominence → Bool) (ps : List Prominence)
    → (prom_eq (first_fit test ps) hidden ≡ true)
      ⊎ ((prom_eq (first_fit test ps) hidden ≡ false) × (test (first_fit test ps) ≡ true))
first_fit-fits test [] = inl refl
first_fit-fits test (p ∷ ps) = elim (Bool-cases (test p)) [
  | inl e ↦ rw e (elim (Bool-cases (prom_eq p hidden)) [ inl h ↦ inl h | inr n ↦ inr (n, e) ])
  | inr e ↦ rw e (first_fit-fits test ps)
]

module _ (available gap : ℕ) (width : Text → Prominence → ℕ) (small : available < u32_max) where
  -- The widgets of the list take the room by which `running` grows, and it is there.
  abbrev pub Fills : List WidgetDef → Placement → Placement → Type 0
  Fills ws s s' =
      ((j : Text) → NotIn j ws → lookup j s'.prominences ≡ lookup j s.prominences)
      × (s'.running ≡ s.running + used gap width s'.prominences ws s.visible_count)
      × (s'.running ≤ available)

  -- One widget and then the others.
  Fills-cons :
      (w : WidgetDef) (ws : List WidgetDef) (s s1 s' : Placement) (q : Prominence)
      → NotIn w.id ws
      → (prom_eq q hidden ≡ true)
        ⊎ ((prom_eq q hidden ≡ false) × (fits available gap width s w.id q ≡ true))
      → EndsAt available gap width s w.id q s1
      → Fills ws s1 s'
      → Fills (w ∷ ws) s s'
  Fills-cons w ws s s1 s' q apart room (e, grows, counts, keep) (others, more, bounded) =
      (λ j n. others j n.1 ∙ keep j (apart_sym j n.0), sums room, bounded)
    where
      apart_sym : (j : Text) → text_eq j w.id ≡ false → text_eq w.id j ≡ false
      apart_sym j h = ground (arith, text_eq_iff j w.id, text_eq_iff w.id j)

      level : lookup w.id s'.prominences ≡ some q
      level = others w.id apart ∙ e

      sums :
          (prom_eq q hidden ≡ true)
            ⊎ ((prom_eq q hidden ≡ false) × (fits available gap width s w.id q ≡ true))
          → s'.running ≡ s.running + used gap width s'.prominences (w ∷ ws) s.visible_count
      sums (inl h) =
          let same_room = rw h at grows in
          let same_count = rw h at counts in
          rw (level, h)
            (omega (arith, more, same_room, ap (used gap width s'.prominences ws) same_count))
      sums (inr (h, fit)) =
          let more_room = rw h at grows in
          let one_more = rw h at counts in
          rw (level, h)
            (omega (
              arith,
              more,
              more_room,
              saturating-exact s.running (width w.id q) (gap_for gap s.visible_count) available
                  small (leb→le _ available fit),
              ap (used gap width s'.prominences ws) one_more,
            ))

  within :
      (s s1 : Placement) (id : Text) (q : Prominence)
      → (prom_eq q hidden ≡ true)
        ⊎ ((prom_eq q hidden ≡ false) × (fits available gap width s id q ≡ true))
      → EndsAt available gap width s id q s1
      → s.running ≤ available
      → s1.running ≤ available
  within s s1 id q (inl h) (e, grows, counts, keep) le =
      let same_room = rw h at grows in omega arith
  within s s1 id q (inr (h, fit)) (e, grows, counts, keep) le =
      let more_room = rw h at grows in omega (arith, leb→le _ available fit)

  pub fit_all-Fills :
      (ws : List WidgetDef) (s : Placement)
      → AllKnown s.prominences ws
      → IsDistinct ws
      → s.running ≤ available
      → (s' : Placement) × (fit_all available gap width ws s ≡ some s') × Fills ws s s'
  unfolding fit_all
  fit_all-Fills [] s k d h = (s, refl, ((λ j n. refl), omega arith, h))
  fit_all-Fills (w ∷ ws) s ((p, e), k) (n, d) h =
      let (s1, run1, ends) = fit_widget_lem available gap width w.id s p e in
      let q = first_fit (fits available gap width s w.id) (chain p) in
      let room = first_fit-fits (fits available gap width s w.id) (chain p) in
      let (s', run', fills) =
        fit_all-Fills ws s1 (AllKnown-keep s.prominences s1.prominences w.id ws ends.3 n k) d
          (within s s1 w.id q room ends h) in
      (s', rw (run1, fit_all) run', Fills-cons w ws s s1 s' q n room ends fills)
