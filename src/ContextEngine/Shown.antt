-- ===== src/ContextEngine/Shown.antt =====
-- What the shell knows after a publication by crates/levshell-modules/src/context_engine.rs.
use levshell.Prelude.{
  ℕ, ◌≡◌, refl, ◌∙◌, ap, Text, text_eq_iff, Assoc, IsMap, lookup, remove, true, Option, none, some,
  List, [], ◌∷◌, ◌++◌, arith, Bool-cases, inl, inr,
}
use levshell.Prominence.{Prominence}
use levshell.Expr.Syntax.{Numbers}
use levshell.Expr.Eval.{list_eq}
use levshell.Hysteresis.{Hysteresis}
use levshell.Hysteresis.Invariant.{IsValid, observe-IsValid}
use levshell.Cascade.{BarLayout, Layout, get_or_hidden}
use levshell.Cascade.Known.{resolve_layout-total}
use levshell.Cascade.Maps.{resolve_layout-IsMap}
use levshell.ContextEngine.State.{
  ContextEngine, PublishedSnapshot, Message, bar_layout, widget_visibility, bar_density_state,
  ui_scale_state, cascade_input, layout_eq, visibility, hide_all, diff, layout_message, previous,
  publish, resolve_and_publish,
}
use levshell.ContextEngine.Follow.{follow, follow-append, follow-diff_snapshot}

list_eq→eq : (xs ys : List Text) → list_eq xs ys ≡ true → xs ≡ ys
unfolding list_eq
list_eq→eq [] [] h = refl
list_eq→eq [] (y ∷ ys) h = cc
list_eq→eq (x ∷ xs) [] h = cc
list_eq→eq (x ∷ xs) (y ∷ ys) h = ground (arith, text_eq_iff x y, list_eq→eq xs ys)

layout_eq→eq : (a b : BarLayout) → layout_eq a b ≡ true → a ≡ b
unfolding layout_eq
layout_eq→eq a b h =
    ground
      (arith, list_eq→eq a.left b.left, list_eq→eq a.center b.center, list_eq→eq a.right b.right)

-- The layout that the shell holds after the messages.
abbrev pub last_layout : {N : Type 0} → Option BarLayout → List (Message N) → Option BarLayout
last_layout held [] = held
last_layout held (bar_layout layout ∷ ms) = last_layout (some layout) ms
last_layout held (widget_visibility id visible p ∷ ms) = last_layout held ms
last_layout held (bar_density_state mode ∷ ms) = last_layout held ms
last_layout held (ui_scale_state factor ∷ ms) = last_layout held ms

-- What the shell knows, if it has all messages: a level for each widget, and a layout.
abbrev pub shown_level : {N : Type 0} → ContextEngine N → Text → Prominence
shown_level e j = get_or_hidden (lookup j (previous e.last_published))

abbrev pub held_layout : Option PublishedSnapshot → Option BarLayout
held_layout none = none
held_layout (some last) = some last.layout

abbrev pub shown_layout : {N : Type 0} → ContextEngine N → Option BarLayout
shown_layout e = held_layout e.last_published

-- The messages take what the shell knows of the one engine to what it knows of the other.
pub record IsShown {N : Type 0} (e e' : ContextEngine N) (ms : List (Message N)) : Type 0 where
  pub levels : (j : Text) → follow j (shown_level e j) ms ≡ shown_level e' j
  pub layout : last_layout (shown_layout e) ms ≡ shown_layout e'

module _ (N : Type 0) where
  pub last_layout-append :
      (held : Option BarLayout) (xs ys : List (Message N))
      → last_layout held (xs ++ ys) ≡ last_layout (last_layout held xs) ys
  last_layout-append held [] ys = refl
  last_layout-append held (bar_layout layout ∷ ms) ys = last_layout-append (some layout) ms ys
  last_layout-append held (widget_visibility id visible p ∷ ms) ys = last_layout-append held ms ys
  last_layout-append held (bar_density_state mode ∷ ms) ys = last_layout-append held ms ys
  last_layout-append held (ui_scale_state factor ∷ ms) ys = last_layout-append held ms ys

  last_layout-hide_all :
      (held : Option BarLayout) (prev : Assoc Prominence)
      → last_layout held (hide_all {N = N} prev) ≡ held
  unfolding hide_all
  last_layout-hide_all held [] = refl
  last_layout-hide_all held ((id, p) ∷ prev) = last_layout-hide_all held prev

  last_layout-diff :
      (held : Option BarLayout) (cs prev : Assoc Prominence)
      → last_layout held (diff {N = N} cs prev) ≡ held
  unfolding diff visibility
  last_layout-diff held [] prev = last_layout-hide_all held prev
  last_layout-diff held ((id, p) ∷ cs) prev =
      ground (arith, last_layout-diff held cs (remove id prev))

  last_layout-message :
      (last : Option PublishedSnapshot) (layout : BarLayout)
      → last_layout (held_layout last) (layout_message {N = N} last layout) ≡ some layout
  unfolding layout_message
  last_layout-message none layout = refl
  last_layout-message (some last) layout = elim (Bool-cases (layout_eq last.layout layout)) [
    | inl same ↦ rw same (ap some (layout_eq→eq last.layout layout same))
    | inr new ↦ rw new refl
  ]

  follow-message :
      (j : Text) (shown : Prominence) (last : Option PublishedSnapshot) (layout : BarLayout)
      → follow j shown (layout_message {N = N} last layout) ≡ shown
  unfolding layout_message
  follow-message j shown none layout = refl
  follow-message j shown (some last) layout = ground arith

module _ {N : Type 0} where
  publish-IsShown :
      (e : ContextEngine N) (layout : Layout) (h : Hysteresis)
      → IsMap h.committed
      → IsShown e (publish e layout h).0 (publish e layout h).1
  unfolding publish
  publish-IsShown e layout h m =
      let first = layout_message {N = N} e.last_published layout.layout in
      let second = diff {N = N} h.committed (previous e.last_published) in
      record {
        levels = λ j.
            follow-append j (shown_level e j) first second
            ∙ ap (λ p. follow j p second)
                (follow-message N j (shown_level e j) e.last_published layout.layout)
            ∙ follow-diff_snapshot N j h.committed (previous e.last_published) m;
        layout =
            last_layout-append N (shown_layout e) first second
            ∙ last_layout-diff N (last_layout (shown_layout e) first) h.committed
                (previous e.last_published)
            ∙ last_layout-message N e.last_published layout.layout;
      }

  -- What a call that has published leaves.
  pub record IsPublished (e e' : ContextEngine N) (ms : List (Message N)) : Type 0 where
    pub valid : IsValid e'.hysteresis
    pub shown : IsShown e e' ms
    pub committed : (j : Text) → shown_level e' j ≡ get_or_hidden (lookup j e'.hysteresis.committed)
    pub same_profiles : e'.profiles ≡ e.profiles
    pub same_active : e'.active_profile ≡ e.active_profile

  pub resolve_and_publish-IsPublished :
      (num : Numbers N) (e : ContextEngine N) (now : ℕ)
      → IsValid e.hysteresis
      → (e' : ContextEngine N) × (ms : List (Message N)) × (resolve_and_publish num e now
          ≡ some (e', ms))
        × IsPublished e e' ms
  unfolding publish resolve_and_publish
  resolve_and_publish-IsPublished num e now v =
      let (layout, resolved) = resolve_layout-total num (cascade_input e) in
      let (h, observed, valid) =
        observe-IsValid e.hysteresis layout.prominences now
          (resolve_layout-IsMap num (cascade_input e) layout resolved) v in
      (
        (publish e layout h).0,
        (publish e layout h).1,
        rw (resolved, observed, resolve_and_publish) refl,
        record {
          valid = valid;
          shown = publish-IsShown e layout h valid.committed_map;
          committed = λ j. refl;
          same_profiles = refl;
          same_active = refl;
        },
      )
