-- ===== src/Cascade/Known.antt =====
-- That the first three steps of crates/levshell-context/src/cascade.rs keep a level for every widget,
-- which the fourth looks up with `expect`.
use levshell.Prelude.{
  ℕ, ◌≡◌, refl, ◌∙◌, subst, Text, text_eq, text_eq_iff, text_eq_refl, Assoc, lookup, insert,
  lookup-insert, Bool, true, false, Option, none, some, List, [], ◌∷◌, if◌then◌else◌, arith,
  Bool-cases, inl, inr,
}
use levshell.Prominence.{Prominence}
use levshell.Signals.{SignalContext}
use levshell.Expr.Syntax.{Numbers}
use levshell.Rules.{WidgetDef, CompiledRule, Profile, evaluate}
use levshell.Cascade.{
  CascadeInput, Layout, Placement, sort_insert, sort_by, widget_before, seed, is_known, higher,
  get_or_hidden, apply_rule, apply_rules, apply_overrides, apply_profile, fit_all, constrain,
  requested, resolve_layout, finish_layout, replace_known,
}
use levshell.Cascade.Fit.{fit_widget_lem}
use levshell.Cascade.Budget.{AllKnown, NotIn, IsDistinct}

-- The widget has a level.
abbrev pub HasLevel : Assoc Prominence → Text → Type 0
HasLevel m id = (p : Prominence) × (lookup id m ≡ some p)

-- Every id that has a level in `m` has one in `m'`.
abbrev pub Keeps : Assoc Prominence → Assoc Prominence → Type 0
Keeps m m' = (id : Text) → HasLevel m id → HasLevel m' id

insert-Keeps : (k : Text) (p : Prominence) (m : Assoc Prominence) → Keeps m (insert k p m)
insert-Keeps k p m id (q, e) = elim (Bool-cases (text_eq k id)) [
  | inl same ↦ (p, rw (lookup-insert k id p m, same))
  | inr other ↦ (q, rw (lookup-insert k id p m, other) e)
]

insert-HasLevel : (k : Text) (p : Prominence) (m : Assoc Prominence) → HasLevel (insert k p m) k
insert-HasLevel k p m = (p, rw (lookup-insert k k p m, text_eq_refl k))

seed-Keeps : (m : Assoc Prominence) (ws : List WidgetDef) → Keeps m (seed m ws)
unfolding seed
seed-Keeps m [] id h = h
seed-Keeps m (w ∷ ws) id h =
    seed-Keeps (insert w.id w.default_prominence m) ws id
      (insert-Keeps w.id w.default_prominence m id h)

AllKnown-Keeps :
    (m m' : Assoc Prominence) (ws : List WidgetDef) → Keeps m m' → AllKnown m ws → AllKnown m' ws
AllKnown-Keeps m m' [] keeps k = tt
AllKnown-Keeps m m' (w ∷ ws) keeps (h, k) = (keeps w.id h, AllKnown-Keeps m m' ws keeps k)

seed-AllKnown : (m : Assoc Prominence) (ws : List WidgetDef) → AllKnown (seed m ws) ws
unfolding seed
seed-AllKnown m [] = tt
seed-AllKnown m (w ∷ ws) =
    let m1 = insert w.id w.default_prominence m in
    (seed-Keeps m1 ws w.id (insert-HasLevel w.id w.default_prominence m), seed-AllKnown m1 ws)

apply_overrides-Keeps : (m os : Assoc Prominence) → Keeps m (apply_overrides m os)
unfolding apply_overrides
apply_overrides-Keeps m [] id h = h
apply_overrides-Keeps m ((w, p) ∷ os) id h =
    apply_overrides-Keeps (replace_known (lookup w m) w p m) os id (one (lookup w m))
  where
    one : (o : Option Prominence) → HasLevel (replace_known o w p m) id
    one none = h
    one (some q) = insert-Keeps w p m id h

module _ {N : Type 0} (num : Numbers N) where
  apply_rules-Keeps :
      (ws : List WidgetDef) (signals : SignalContext N) (m : Assoc Prominence)
      (rules : List (CompiledRule N))
      → Keeps m (apply_rules num ws signals m rules)
  unfolding apply_rules apply_rule
  apply_rules-Keeps ws signals m [] id h = h
  apply_rules-Keeps ws signals m (r ∷ rules) id h =
      apply_rules-Keeps ws signals (apply_rule num ws signals m r) rules id
        (one (is_known ws r.target) (evaluate num r signals))
    where
      one :
          (known fires : Bool)
          → HasLevel
              (if known
                then if fires
                  then insert r.target (higher (get_or_hidden (lookup r.target m)) r.prominence) m
                  else m
                else m)
              id
      one true true = insert-Keeps r.target _ m id h
      one true false = h
      one false fires = h

  apply_profile-Keeps :
      (profile : Option (Profile N)) (m : Assoc Prominence) → Keeps m (apply_profile profile m)
  unfolding apply_profile
  apply_profile-Keeps none m id h = h
  apply_profile-Keeps (some profile) m id h = apply_overrides-Keeps m profile.overrides id h

  pub requested-AllKnown : (input : CascadeInput N) → AllKnown (requested num input) input.widgets
  unfolding requested
  requested-AllKnown input =
      let seeded = seed [] input.widgets in
      let voted = apply_rules num input.widgets input.signals seeded input.rules in
      AllKnown-Keeps seeded (apply_profile input.active_profile voted) input.widgets
        (λ id h.
          apply_profile-Keeps input.active_profile voted id
            (apply_rules-Keeps input.widgets input.signals seeded input.rules id h))
        (seed-AllKnown [] input.widgets)

-- The sorted list has the same widgets.
sort_insert-AllKnown :
    (m : Assoc Prominence) (w : WidgetDef) (ws : List WidgetDef)
    → HasLevel m w.id
    → AllKnown m ws
    → AllKnown m (sort_insert widget_before w ws)
unfolding sort_insert
sort_insert-AllKnown m w [] h k = (h, tt)
sort_insert-AllKnown m w (v ∷ vs) h k = elim (Bool-cases (widget_before w v)) [
  | inl e ↦ rw e (h, k)
  | inr e ↦ rw e (k.0, sort_insert-AllKnown m w vs h k.1)
]

pub sort_by-AllKnown :
    (m : Assoc Prominence) (ws : List WidgetDef)
    → AllKnown m ws
    → AllKnown m (sort_by widget_before ws)
unfolding sort_by
sort_by-AllKnown m [] k = tt
sort_by-AllKnown m (w ∷ ws) (h, k) =
    sort_insert-AllKnown m w (sort_by widget_before ws) h (sort_by-AllKnown m ws k)

sort_insert-NotIn :
    (id : Text) (w : WidgetDef) (ws : List WidgetDef)
    → text_eq id w.id ≡ false
    → NotIn id ws
    → NotIn id (sort_insert widget_before w ws)
unfolding sort_insert
sort_insert-NotIn id w [] h n = (h, tt)
sort_insert-NotIn id w (v ∷ vs) h n = elim (Bool-cases (widget_before w v)) [
  | inl e ↦ rw e (h, n)
  | inr e ↦ rw e (n.0, sort_insert-NotIn id w vs h n.1)
]

sort_by-NotIn :
    (id : Text) (ws : List WidgetDef) → NotIn id ws → NotIn id (sort_by widget_before ws)
unfolding sort_by
sort_by-NotIn id [] n = tt
sort_by-NotIn id (w ∷ ws) (h, n) =
    sort_insert-NotIn id w (sort_by widget_before ws) h (sort_by-NotIn id ws n)

sort_insert-IsDistinct :
    (w : WidgetDef) (ws : List WidgetDef)
    → NotIn w.id ws
    → IsDistinct ws
    → IsDistinct (sort_insert widget_before w ws)
unfolding sort_insert
sort_insert-IsDistinct w [] n d = (tt, tt)
sort_insert-IsDistinct w (v ∷ vs) n d = elim (Bool-cases (widget_before w v)) [
  | inl e ↦ rw e (n, d)
  | inr e ↦ rw e (
    sort_insert-NotIn v.id w vs (ground (arith, text_eq_iff w.id v.id, text_eq_iff v.id w.id, n.0))
        d.0,
    sort_insert-IsDistinct w vs n.1 d.1,
  )
]

pub sort_by-IsDistinct :
    (ws : List WidgetDef) → IsDistinct ws → IsDistinct (sort_by widget_before ws)
unfolding sort_by
sort_by-IsDistinct [] d = tt
sort_by-IsDistinct (w ∷ ws) (n, d) =
    sort_insert-IsDistinct w (sort_by widget_before ws) (sort_by-NotIn w.id ws n)
      (sort_by-IsDistinct ws d)

fit_all-total :
    (available gap : ℕ) (width : Text → Prominence → ℕ) (ws : List WidgetDef) (s : Placement)
    → AllKnown s.prominences ws
    → (s' : Placement) × (fit_all available gap width ws s ≡ some s')
unfolding fit_all
fit_all-total available gap width [] s k = (s, refl)
fit_all-total available gap width (w ∷ ws) s ((p, e), k) =
    let (s1, run1, ends) = fit_widget_lem available gap width w.id s p e in
    let (s', run') =
      fit_all-total available gap width ws s1
        (AllKnown-Keeps s.prominences s1.prominences ws (keeps s1 (_, ends.0) ends.3) k) in
    (s', rw (run1, fit_all) run')
  where
    keeps :
        (s1 : Placement)
        → HasLevel s1.prominences w.id
        → ((j : Text) → text_eq w.id j ≡ false → lookup j s1.prominences ≡ lookup j s.prominences)
        → Keeps s.prominences s1.prominences
    keeps s1 here others id (q, h) = elim (Bool-cases (text_eq w.id id)) [
      | inl same ↦ subst (HasLevel s1.prominences) ((text_eq_iff w.id id).0 same) here
      | inr other ↦ (q, others id other ∙ h)
    ]

pub resolve_layout-constrain :
    {N : Type 0} (num : Numbers N) (input : CascadeInput N) (s : Placement)
    → constrain input.available_width input.inter_widget_gap input.widget_width input.widgets
        (requested num input)
      ≡ some s
    → resolve_layout num input ≡ some (finish_layout num input s)
unfolding resolve_layout
resolve_layout-constrain num input s e = rw (e, resolve_layout)

-- The cascade returns a layout on every input: no widget lacks a level in step 4, and every
-- demotion loop ends.
pub resolve_layout-total :
    {N : Type 0} (num : Numbers N) (input : CascadeInput N)
    → (layout : Layout) × (resolve_layout num input ≡ some layout)
unfolding constrain
resolve_layout-total num input =
    let start : Placement = record {
      prominences = requested num input;
      running = 0;
      visible_count = 0;
    } in
    let (s, run) =
      fit_all-total input.available_width input.inter_widget_gap input.widget_width
        (sort_by widget_before input.widgets) start
        (sort_by-AllKnown (requested num input) input.widgets (requested-AllKnown num input)) in
    (finish_layout num input s, resolve_layout-constrain num input s run)
