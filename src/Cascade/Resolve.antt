-- ===== src/Cascade/Resolve.antt =====
-- What the result of crates/levshell-context/src/cascade.rs promises its caller.
use levshell.Prelude.{
  ◌≤◌, ◌<◌, ◌≡◌, refl, sym, ◌∙◌, Fresh-lookup, Text, text_eq, text_eq_iff, text_eq_refl, Assoc,
  IsMap, lookup, lookup-insert, false, Option, none, some, [], ◌∷◌, arith, Bool-cases, inl, inr,
  Option-cases, u32_max, subst,
}
use levshell.Prominence.{Prominence}
use levshell.Expr.Syntax.{Numbers}
use levshell.Cascade.{
  CascadeInput, Layout, Placement, sort_by, widget_before, apply_overrides, replace_known,
  constrain, requested, resolve_layout, finish_layout,
}
use levshell.Cascade.Budget.{IsDistinct, used, fit_all-Fills}
use levshell.Cascade.Known.{
  requested-AllKnown, sort_by-AllKnown, sort_by-IsDistinct, resolve_layout-constrain,
}

-- What `get_mut` does to one level.
abbrev pub replaced : Option Prominence → Option Prominence → Option Prominence
replaced none override = none
replaced (some slot) none = some slot
replaced (some slot) (some p) = some p

lookup-replace_known_self :
    (w : Text) (p : Prominence) (m : Assoc Prominence)
    → lookup w (replace_known (lookup w m) w p m) ≡ replaced (lookup w m) (some p)
lookup-replace_known_self w p m = elim (Option-cases (lookup w m)) [
  | inl e ↦ rw e e
  | inr (q, e) ↦ rw e (lookup-insert w w p m ∙ rw (text_eq_refl w))
]

lookup-replace_known_other :
    (w j : Text) (p : Prominence) (m : Assoc Prominence)
    → text_eq w j ≡ false
    → lookup j (replace_known (lookup w m) w p m) ≡ lookup j m
lookup-replace_known_other w j p m other = elim (Option-cases (lookup w m)) [
  | inl e ↦ rw e
  | inr (q, e) ↦ rw e (lookup-insert w j p m ∙ rw other)
]

replaced-none : (o : Option Prominence) → o ≡ replaced o none
replaced-none none = refl
replaced-none (some p) = refl

-- An override takes hold for every widget that has a level, and for no other.
lookup-apply_overrides :
    (m os : Assoc Prominence) (j : Text)
    → IsMap os
    → lookup j (apply_overrides m os) ≡ replaced (lookup j m) (lookup j os)
unfolding apply_overrides lookup
lookup-apply_overrides m [] j i = replaced-none (lookup j m)
lookup-apply_overrides m ((w, p) ∷ os) j (f, i) = elim (Bool-cases (text_eq w j)) [
  | inl same ↦ rw same (
      lookup-apply_overrides (replace_known (lookup w m) w p m) os j i
      ∙ rw (Fresh-lookup w j os f same) (
          sym (replaced-none (lookup j (replace_known (lookup w m) w p m)))
          ∙ subst
              (λ x. lookup x (replace_known (lookup w m) w p m) ≡ replaced (lookup x m) (some p))
              ((text_eq_iff w j).0 same) (lookup-replace_known_self w p m)))
  | inr other ↦ rw other (
      lookup-apply_overrides (replace_known (lookup w m) w p m) os j i
      ∙ rw (lookup-replace_known_other w j p m other))
]

module _ {N : Type 0} (num : Numbers N) (input : CascadeInput N) where
  -- Step 4 leaves the bar within its width. With distinct widget ids and a width below the largest
  -- u32, the levels it settles on take no more pixels than there are, counting every shown widget
  -- and the gap in front of every one but the first, in the order of priority. The final levels are
  -- these, but that an override of the user replaces the level of a known widget, whatever the room.
  pub resolve_layout-fits :
      input.available_width < u32_max
      → IsDistinct input.widgets
      → IsMap input.user_overrides
      → (layout : Layout) × (settled : Assoc Prominence) × (resolve_layout num input ≡ some layout)
        × (used input.inter_widget_gap input.widget_width settled
              (sort_by widget_before input.widgets)
              0
            ≤ input.available_width)
        × ((id : Text)
            → lookup id layout.prominences
              ≡ replaced (lookup id settled) (lookup id input.user_overrides))
  unfolding constrain finish_layout
  resolve_layout-fits small distinct overrides =
      let start : Placement = record {
        prominences = requested num input;
        running = 0;
        visible_count = 0;
      } in
      let (s, run, fills) =
        fit_all-Fills input.available_width input.inter_widget_gap input.widget_width small
          (sort_by widget_before input.widgets) start
          (sort_by-AllKnown (requested num input) input.widgets (requested-AllKnown num input))
          (sort_by-IsDistinct input.widgets distinct) (omega arith) in
      (
        finish_layout num input s,
        s.prominences,
        resolve_layout-constrain num input s run,
        omega (arith, fills.1, fills.2),
        λ id. lookup-apply_overrides s.prominences input.user_overrides id overrides,
      )
