-- ===== src/Cascade/Votes.antt =====
-- Step 2 of crates/levshell-context/src/cascade.rs: the votes of the rules.
use levshell.Prelude.{
  ◌≤◌, ◌≡◌, refl, ◌∙◌, sym, subst, ◌⊎◌, inl, inr, Text, text_eq, text_eq_iff, text_eq_refl, Assoc,
  lookup, insert, lookup-insert, Bool, true, false, ◌&&◌, some, List, [], ◌∷◌, if◌then◌else◌, arith,
  Bool-cases,
}
use levshell.Prominence.{Prominence, rank, prom_lt}
use levshell.Signals.{SignalContext}
use levshell.Expr.Syntax.{Numbers}
use levshell.Rules.{WidgetDef, CompiledRule, evaluate}
use levshell.Cascade.{is_known, higher, get_or_hidden, apply_rule, apply_rules}

higher_bounds : (p q : Prominence) → (rank p ≤ rank (higher p q)) × (rank q ≤ rank (higher p q))
higher_bounds p q = ground arith

higher_one : (p q : Prominence) → (higher p q ≡ p) ⊎ (higher p q ≡ q)
higher_one p q = elim (Bool-cases (prom_lt p q)) [ inl e ↦ inr (rw e) | inr e ↦ inl (rw e) ]

module _ {N : Type 0} (num : Numbers N) (ws : List WidgetDef) (signals : SignalContext N) where
  -- The rule fires for the widget `j`.
  abbrev pub votes_for : Text → CompiledRule N → Bool
  votes_for j r = text_eq r.target j && evaluate num r signals

  -- No vote for `j` is above `q`.
  abbrev pub Above : Text → Prominence → List (CompiledRule N) → Type 0
  Above j q [] = Unit
  Above j q (r ∷ rules) = (votes_for j r ≡ true → rank r.prominence ≤ rank q) × Above j q rules

  -- Some vote for `j` asks for `q`.
  abbrev pub VotedFor : Text → Prominence → List (CompiledRule N) → Type 0
  VotedFor j q [] = ⊥
  VotedFor j q (r ∷ rules) = ((votes_for j r ≡ true) × (r.prominence ≡ q)) ⊎ VotedFor j q rules

  lookup-apply_rule :
      (m : Assoc Prominence) (r : CompiledRule N) (j : Text) (p : Prominence)
      → is_known ws j ≡ true
      → lookup j m ≡ some p
      → lookup j (apply_rule num ws signals m r)
        ≡ some (if votes_for j r then higher p r.prominence else p)
  unfolding apply_rule
  lookup-apply_rule m r j p known e = elim (Bool-cases (text_eq r.target j)) [
    | inl same ↦
        subst
          (λ t.
            lookup j (
              if is_known ws t
              then if evaluate num r signals
                then insert t (higher (get_or_hidden (lookup t m)) r.prominence) m
                else m
              else m)
            ≡ some (if text_eq t j && evaluate num r signals then higher p r.prominence else p))
          (sym ((text_eq_iff r.target j).0 same))
          (rw (known, text_eq_refl j) (own (evaluate num r signals)))
    | inr other ↦ rw other (others (is_known ws r.target) (evaluate num r signals) other)
  ]
    where
      own :
          (fires : Bool)
          → lookup j
              (if fires then insert j (higher (get_or_hidden (lookup j m)) r.prominence) m else m)
            ≡ some (if fires then higher p r.prominence else p)
      own true = rw (
        lookup-insert j j (higher (get_or_hidden (lookup j m)) r.prominence) m,
        text_eq_refl j,
        e,
      )
      own false = e

      others :
          (known_target fires : Bool)
          → text_eq r.target j ≡ false
          → lookup j (
              if known_target
              then if fires
                then insert r.target (higher (get_or_hidden (lookup r.target m)) r.prominence) m
                else m
              else m)
            ≡ some p
      others true true other = lookup-insert r.target j _ m ∙ rw other e
      others true false other = e
      others false fires other = e

  -- For a widget that the cascade knows, whose level was `p`, the rules leave a level that is not
  -- below `p` nor below any rule that fires for the widget, and that is `p` or asked for by such a
  -- rule: the highest of them, in whatever order the rules stand.
  pub apply_rules-highest :
      (m : Assoc Prominence) (rules : List (CompiledRule N)) (j : Text) (p : Prominence)
      → is_known ws j ≡ true
      → lookup j m ≡ some p
      → (q : Prominence) × (lookup j (apply_rules num ws signals m rules) ≡ some q)
        × (rank p ≤ rank q)
        × Above j q rules
        × ((q ≡ p) ⊎ VotedFor j q rules)
  unfolding apply_rules
  apply_rules-highest m [] j p known e = (p, e, omega arith, tt, inl refl)
  apply_rules-highest m (r ∷ rules) j p known e = elim (Bool-cases (votes_for j r)) [
    | inl votes ↦
        let up = higher p r.prominence in
        let (q, run, le, above, from) =
          apply_rules-highest (apply_rule num ws signals m r) rules j up known
            (lookup-apply_rule m r j p known e ∙ rw votes) in
        (
          q,
          run,
          omega (arith, higher_bounds p r.prominence),
          ((λ v. omega (arith, higher_bounds p r.prominence)), above),
          source votes (higher_one p r.prominence) from,
        )
    | inr silent ↦
        let (q, run, le, above, from) =
          apply_rules-highest (apply_rule num ws signals m r) rules j p known
            (lookup-apply_rule m r j p known e ∙ rw silent) in
        (q, run, le, ((λ v. cc), above), skip from)
  ]
    where
      skip : {q : Prominence} → (q ≡ p) ⊎ VotedFor j q rules → (q ≡ p) ⊎ VotedFor j q (r ∷ rules)
      skip (inl e) = inl e
      skip (inr later) = inr (inr later)

      source :
          {q : Prominence}
          → votes_for j r ≡ true
          → (higher p r.prominence ≡ p) ⊎ (higher p r.prominence ≡ r.prominence)
          → (q ≡ higher p r.prominence) ⊎ VotedFor j q rules
          → (q ≡ p) ⊎ VotedFor j q (r ∷ rules)
      source v (inl kept) (inl e) = inl (e ∙ kept)
      source v (inr raised) (inl e) = inr (inl (v, sym (e ∙ raised)))
      source v one (inr later) = inr (inr later)
