-- ===== src/Cascade/Maps.antt =====
-- The levels that crates/levshell-context/src/cascade.rs returns are a hash map, each key once.
use levshell.Prelude.{
  ℕ, ◌+◌, zero, suc, ◌≡◌, subst, Text, Assoc, lookup, insert, IsMap, insert-IsMap, Option, none,
  some, List, [], ◌∷◌, leb, Bool-cases, Option-cases, inl, inr,
}
use levshell.Prominence.{Prominence, hidden, prom_eq}
use levshell.Signals.{SignalContext}
use levshell.Expr.Syntax.{Numbers}
use levshell.Rules.{WidgetDef, CompiledRule, Profile, evaluate}
use levshell.Cascade.{
  CascadeInput, Layout, Placement, sort_by, widget_before, seed, is_known, apply_rule, apply_rules,
  apply_overrides, apply_profile, replace_known, demote_one, with_widget, fit_widget, fit_all,
  constrain, requested, finish_layout, resolve_layout,
}

seed-IsMap : (m : Assoc Prominence) (ws : List WidgetDef) → IsMap m → IsMap (seed m ws)
unfolding seed
seed-IsMap m [] h = h
seed-IsMap m (w ∷ ws) h =
    seed-IsMap (insert w.id w.default_prominence m) ws (insert-IsMap w.id w.default_prominence m h)

apply_overrides-IsMap : (m os : Assoc Prominence) → IsMap m → IsMap (apply_overrides m os)
unfolding apply_overrides
apply_overrides-IsMap m [] h = h
apply_overrides-IsMap m ((w, p) ∷ os) h =
    apply_overrides-IsMap (replace_known (lookup w m) w p m) os (kept (lookup w m))
  where
    kept : (o : Option Prominence) → IsMap (replace_known o w p m)
    kept none = h
    kept (some slot) = insert-IsMap w p m h

apply_profile-IsMap :
    {N : Type 0} (profile : Option (Profile N)) (m : Assoc Prominence)
    → IsMap m
    → IsMap (apply_profile profile m)
unfolding apply_profile
apply_profile-IsMap none m h = h
apply_profile-IsMap (some profile) m h = apply_overrides-IsMap m profile.overrides h

module _ {N : Type 0} (num : Numbers N) where
  apply_rule-IsMap :
      (ws : List WidgetDef) (signals : SignalContext N) (m : Assoc Prominence) (r : CompiledRule N)
      → IsMap m
      → IsMap (apply_rule num ws signals m r)
  unfolding apply_rule
  apply_rule-IsMap ws signals m r h = elim (Bool-cases (is_known ws r.target)) [
    | inl known ↦ elim (Bool-cases (evaluate num r signals)) [
      | inl fires ↦ rw (known, fires) (insert-IsMap r.target _ m h)
      | inr silent ↦ rw (known, silent) h
    ]
    | inr unknown ↦ rw unknown h
  ]

  apply_rules-IsMap :
      (ws : List WidgetDef) (signals : SignalContext N) (m : Assoc Prominence)
      (rules : List (CompiledRule N))
      → IsMap m
      → IsMap (apply_rules num ws signals m rules)
  unfolding apply_rules
  apply_rules-IsMap ws signals m [] h = h
  apply_rules-IsMap ws signals m (r ∷ rules) h =
      apply_rules-IsMap ws signals (apply_rule num ws signals m r) rules
        (apply_rule-IsMap ws signals m r h)

  requested-IsMap : (input : CascadeInput N) → IsMap (requested num input)
  unfolding requested
  requested-IsMap input = apply_profile-IsMap input.active_profile _ (
      apply_rules-IsMap input.widgets input.signals (seed [] input.widgets) input.rules
        (seed-IsMap [] input.widgets tt))

same-IsMap : (s s' : Placement) → some s ≡ some s' → IsMap s.prominences → IsMap s'.prominences
same-IsMap s s' e h = let same : s ≡ s' = cc in subst (λ x. IsMap x.prominences) same h

module _ (available gap : ℕ) (width : Text → Prominence → ℕ) where
  fit_widget-IsMap :
      (rounds : ℕ) (id : Text) (s s' : Placement)
      → IsMap s.prominences
      → fit_widget available gap width rounds id s ≡ some s'
      → IsMap s'.prominences
  unfolding fit_widget
  fit_widget-IsMap zero id s s' h e = cc
  fit_widget-IsMap (suc rounds) id s s' h e = elim (Option-cases (lookup id s.prominences)) [
    | inl unknown ↦ let no : none ≡ some s' = rw (unknown, fit_widget) at e in cc
    | inr (p, known) ↦
        let demoted : Placement = record s {
          prominences = insert id (demote_one p) s.prominences;
        } in
        let mapped : IsMap demoted.prominences = insert-IsMap id (demote_one p) s.prominences h in
        elim (Bool-cases (prom_eq p hidden)) [
          | inl gone ↦ same-IsMap s s' (rw (known, fit_widget, gone) at e) h
          | inr shown ↦ elim (Bool-cases (leb (with_widget available gap width s id p) available)) [
            | inl fits ↦
                let next : Placement = record s {
                  running = with_widget available gap width s id p;
                  visible_count = s.visible_count + 1;
                } in
                same-IsMap next s' (rw (known, fit_widget, shown, fits) at e) h
            | inr tight ↦ elim (Bool-cases (prom_eq (demote_one p) hidden)) [
              | inl last ↦
                  same-IsMap demoted s' (rw (known, fit_widget, shown, tight, last) at e) mapped
              | inr more ↦
                  fit_widget-IsMap rounds id demoted s' mapped
                    (rw (known, fit_widget, shown, tight, more) at e)
            ]
          ]
        ]
  ]

  fit_all-IsMap :
      (ws : List WidgetDef) (s s' : Placement)
      → IsMap s.prominences
      → fit_all available gap width ws s ≡ some s'
      → IsMap s'.prominences
  unfolding fit_all
  fit_all-IsMap [] s s' h e = same-IsMap s s' e h
  fit_all-IsMap (w ∷ ws) s s' h e = elim (Option-cases (fit_widget available gap width 6 w.id s)) [
    | inl stuck ↦ let no : none ≡ some s' = rw (stuck, fit_all) at e in cc
    | inr (s1, fitted) ↦
        fit_all-IsMap ws s1 s' (fit_widget-IsMap 6 w.id s s1 h fitted) (rw (fitted, fit_all) at e)
  ]

-- The levels of the layout have each widget once.
pub resolve_layout-IsMap :
    {N : Type 0} (num : Numbers N) (input : CascadeInput N) (layout : Layout)
    → resolve_layout num input ≡ some layout
    → IsMap layout.prominences
unfolding resolve_layout constrain finish_layout
resolve_layout-IsMap num input layout e =
    let settled : Option Placement =
      constrain input.available_width input.inter_widget_gap input.widget_width input.widgets
        (requested num input) in
    elim (Option-cases settled) [
      | inl stuck ↦ let no : none ≡ some layout = rw (stuck, resolve_layout) at e in cc
      | inr (s, run) ↦
          let done : some (finish_layout num input s) ≡ some layout =
            rw (run, resolve_layout) at e in
          let same : finish_layout num input s ≡ layout = cc in
          subst (λ x. IsMap x.prominences) same
            (apply_overrides-IsMap s.prominences input.user_overrides (
              fit_all-IsMap input.available_width input.inter_widget_gap input.widget_width
                (sort_by widget_before input.widgets)
                (record { prominences = requested num input; running = 0; visible_count = 0 }) s
                (requested-IsMap num input) run))
    ]
