-- ===== src/ContextEngine/Follow.antt =====
-- What the shell shows after the messages of crates/levshell-modules/src/context_engine.rs.
use levshell.Prelude.{
  ◌≡◌, refl, ◌∙◌, ap, sym, subst, Text, text_eq, text_eq_iff, Assoc, IsMap, Fresh-lookup, lookup,
  remove, lookup-remove, true, false, Option, none, some, List, [], ◌∷◌, ◌++◌, if◌then◌else◌, arith,
  Bool-cases, inl, inr,
}
use levshell.Prominence.{Prominence, hidden, prom_eq_iff}
use levshell.Cascade.{get_or_hidden}
use levshell.ContextEngine.State.{
  Message, bar_layout, widget_visibility, bar_density_state, ui_scale_state, is_level, visibility,
  hide_all, diff,
}

-- The level shown is that of the snapshot, where it has one.
abbrev pub Agrees : Prominence → Option Prominence → Type 0
Agrees shown none = Unit
Agrees shown (some q) = q ≡ shown

abbrev after_hide : Prominence → Option Prominence → Prominence
after_hide shown none = shown
after_hide shown (some q) = hidden

abbrev after_diff : Prominence → Option Prominence → Option Prominence → Prominence
after_diff shown (some p) prev = p
after_diff shown none prev = after_hide shown prev

hide_hidden : (j : Text) (prev : Assoc Prominence) → after_hide hidden (lookup j prev) ≡ hidden
hide_hidden j prev = ground arith

skipped :
    (shown p : Prominence) (o : Option Prominence)
    → Agrees shown o
    → is_level o p ≡ true
    → p ≡ shown
skipped shown p none h e = cc
skipped shown p (some q) h e = sym ((prom_eq_iff q p).0 e) ∙ h

module _ {N : Type 0} where
  -- The level at which the shell shows the widget `j`, from `shown` on.
  abbrev pub follow : Text → Prominence → List (Message N) → Prominence
  follow j shown [] = shown
  follow j shown (widget_visibility id visible p ∷ ms) =
      follow j (if text_eq id j then p else shown) ms
  follow j shown (bar_layout layout ∷ ms) = follow j shown ms
  follow j shown (bar_density_state mode ∷ ms) = follow j shown ms
  follow j shown (ui_scale_state factor ∷ ms) = follow j shown ms

  pub follow-append :
      (j : Text) (shown : Prominence) (xs ys : List (Message N))
      → follow j shown (xs ++ ys) ≡ follow j (follow j shown xs) ys
  follow-append j shown [] ys = refl
  follow-append j shown (widget_visibility id visible p ∷ ms) ys =
      follow-append j (if text_eq id j then p else shown) ms ys
  follow-append j shown (bar_layout layout ∷ ms) ys = follow-append j shown ms ys
  follow-append j shown (bar_density_state mode ∷ ms) ys = follow-append j shown ms ys
  follow-append j shown (ui_scale_state factor ∷ ms) ys = follow-append j shown ms ys

module _ (N : Type 0) where
  follow-hide_all :
      (j : Text) (shown : Prominence) (prev : Assoc Prominence)
      → follow j shown (hide_all {N = N} prev) ≡ after_hide shown (lookup j prev)
  unfolding hide_all lookup
  follow-hide_all j shown [] = refl
  follow-hide_all j shown ((id, p) ∷ prev) =
      ground
        (arith, follow-hide_all j hidden prev, follow-hide_all j shown prev, hide_hidden j prev)

  -- One entry of the committed levels.
  follow-diff_self :
      (j : Text) (shown : Prominence) (id : Text) (p : Prominence) (cs prev : Assoc Prominence)
      → text_eq id j ≡ true
      → Agrees shown (lookup id prev)
      → follow j p (diff {N = N} cs (remove id prev)) ≡ p
      → follow j shown (diff {N = N} ((id, p) ∷ cs) prev) ≡ p
  unfolding diff visibility
  follow-diff_self j shown id p cs prev e h rest =
      ground (arith, skipped shown p (lookup id prev) h)

  follow-diff_other :
      (j : Text) (shown : Prominence) (id : Text) (p : Prominence) (cs prev : Assoc Prominence)
      → text_eq id j ≡ false
      → follow j shown (diff {N = N} ((id, p) ∷ cs) prev)
        ≡ follow j shown (diff {N = N} cs (remove id prev))
  unfolding diff visibility
  follow-diff_other j shown id p cs prev e = ground arith

  follow-diff_nil :
      (j : Text) (shown : Prominence) (prev : Assoc Prominence)
      → follow j shown (diff {N = N} [] prev) ≡ after_hide shown (lookup j prev)
  unfolding diff
  follow-diff_nil j shown prev = follow-hide_all j shown prev

  follow-diff :
      (j : Text) (shown : Prominence) (cs prev : Assoc Prominence)
      → IsMap cs
      → Agrees shown (lookup j prev)
      → follow j shown (diff {N = N} cs prev) ≡ after_diff shown (lookup j cs) (lookup j prev)
  unfolding lookup
  follow-diff j shown [] prev m h = follow-diff_nil j shown prev
  follow-diff j shown ((id, p) ∷ cs) prev (f, m) h = elim (Bool-cases (text_eq id j)) [
    | inl e ↦
        let gone : lookup j (remove id prev) ≡ none = lookup-remove id j prev ∙ rw e refl in
        let fresh : lookup j cs ≡ none = Fresh-lookup id j cs f e in
        let rest : follow j p (diff {N = N} cs (remove id prev)) ≡ p =
          follow-diff j p cs (remove id prev) m (rw gone tt) ∙ rw (fresh, gone) refl in
        let mine : Agrees shown (lookup id prev) =
          subst (λ k. Agrees shown (lookup k prev)) (sym ((text_eq_iff id j).0 e)) h in
        rw e (follow-diff_self j shown id p cs prev e mine rest)
    | inr e ↦
        let same : lookup j (remove id prev) ≡ lookup j prev =
          lookup-remove id j prev ∙ rw e refl in
        rw e (
          follow-diff_other j shown id p cs prev e
          ∙ follow-diff j shown cs (remove id prev) m (rw same h)
          ∙ ap (after_diff shown (lookup j cs)) same)
  ]

  Agrees-get_or_hidden : (o : Option Prominence) → Agrees (get_or_hidden o) o
  Agrees-get_or_hidden none = tt
  Agrees-get_or_hidden (some q) = refl

  after_diff-get_or_hidden :
      (o o' : Option Prominence) → after_diff (get_or_hidden o') o o' ≡ get_or_hidden o
  after_diff-get_or_hidden none none = refl
  after_diff-get_or_hidden none (some q) = refl
  after_diff-get_or_hidden (some p) o' = refl

  -- A shell that shows the widgets at the levels of the last snapshot, the others hidden, shows them
  -- at the committed levels once it has the messages.
  pub follow-diff_snapshot :
      (j : Text) (cs prev : Assoc Prominence)
      → IsMap cs
      → follow j (get_or_hidden (lookup j prev)) (diff {N = N} cs prev)
        ≡ get_or_hidden (lookup j cs)
  follow-diff_snapshot j cs prev m =
      follow-diff j (get_or_hidden (lookup j prev)) cs prev m (Agrees-get_or_hidden (lookup j prev))
      ∙ after_diff-get_or_hidden (lookup j cs) (lookup j prev)
