-- ===== src/Ideation/Found.antt =====
-- What each kind of draw of crates/levshell-modules/src/ideation/selector.rs finds.
use levshell.Prelude.{
  ◌≡◌, refl, ◌∙◌, ap, sym, subst, ◌⊎◌, inl, inr, Text, Member, false, Option, some, List, [], ◌∷◌,
}
use levshell.Projects.{ProjectEntry}
use levshell.Ideation.{
  Nudge, RecentEntity, GraphLink, Chrono, Rng, is_owner, chosen, or_else, graph_candidates,
  graph_nudge, overlaps, tag_nudge, nudge_about, graph_pass, tag_pass, cross_connections,
}
use levshell.Ideation.Grounds.{IsRng}
use levshell.Ideation.Picks.{IsSome, or_else-some, or_else-IsSome, drawn, drawn-IsSome}
use levshell.Ideation.Passes.{
  IsTarget, IsFound, IsFound-later, graph_candidates-IsTarget, graph_candidates-IsSome,
  overlaps-IsTarget, overlaps-IsSome,
}

module _ {T N R : Type 0} (rng : Rng R N) (law : IsRng rng) (chrono : Chrono T) where
  graph_pass-IsFound :
      (eligible : List (ProjectEntry T)) (es : List (RecentEntity T)) (r : R) (n : Nudge)
      → (graph_pass rng chrono eligible es r).0 ≡ some n
      → IsFound eligible es n
  unfolding graph_pass graph_nudge nudge_about
  graph_pass-IsFound eligible [] r n h = cc
  graph_pass-IsFound eligible (e ∷ es) r n h = elim (or_else-some _ _ n h) [
    | inl found ↦
        drawn rng law (λ x. IsFound eligible (e ∷ es) x) (graph_nudge e)
          (graph_candidates eligible e) r n
          (λ c m. (e, c.0, inl refl, graph_candidates-IsTarget eligible e c m, refl, refl, refl))
          found
    | inr (r1, found) ↦ IsFound-later eligible e es n (graph_pass-IsFound eligible es r1 n found)
  ]

  -- The step of the second pass, where the entity has tags.
  tag_step : List (ProjectEntry T) → RecentEntity T → List (RecentEntity T) → R → Option Nudge × R
  tag_step eligible e es r =
      or_else (chosen (tag_nudge e) (rng.choose (overlaps eligible e) r))
        (λ r1. tag_pass rng chrono eligible es r1)

  tag_pass-cons :
      (eligible : List (ProjectEntry T)) (e : RecentEntity T) (es : List (RecentEntity T)) (r : R)
      (ts : List Text)
      → e.tags ≡ ts
      → ((tag_pass rng chrono eligible (e ∷ es) r ≡ tag_pass rng chrono eligible es r)
          × (e.tags ≡ []))
        ⊎ (tag_pass rng chrono eligible (e ∷ es) r ≡ tag_step eligible e es r)
  unfolding tag_pass tag_step
  tag_pass-cons eligible e es r [] h = inl (simp (h, tag_pass) refl, h)
  tag_pass-cons eligible e es r (t ∷ ts) h = inr (simp (h, tag_pass) refl)

  tag_step-IsFound :
      (eligible : List (ProjectEntry T)) (e : RecentEntity T) (es : List (RecentEntity T)) (r : R)
      (n : Nudge)
      → ((r1 : R) → (tag_pass rng chrono eligible es r1).0 ≡ some n → IsFound eligible es n)
      → (tag_step eligible e es r).0 ≡ some n
      → IsFound eligible (e ∷ es) n
  unfolding tag_step tag_nudge nudge_about
  tag_step-IsFound eligible e es r n rest h = elim (or_else-some _ _ n h) [
    | inl found ↦
        drawn rng law (λ x. IsFound eligible (e ∷ es) x) (tag_nudge e) (overlaps eligible e) r n
          (λ c m. (e, c.0, inl refl, overlaps-IsTarget eligible e c m, refl, refl, refl)) found
    | inr (r1, found) ↦ IsFound-later eligible e es n (rest r1 found)
  ]

  tag_pass-IsFound :
      (eligible : List (ProjectEntry T)) (es : List (RecentEntity T)) (r : R) (n : Nudge)
      → (tag_pass rng chrono eligible es r).0 ≡ some n
      → IsFound eligible es n
  unfolding tag_pass
  tag_pass-IsFound eligible [] r n h = cc
  tag_pass-IsFound eligible (e ∷ es) r n h = elim (tag_pass-cons eligible e es r e.tags refl) [
    | inl (same, _) ↦
        IsFound-later eligible e es n
          (tag_pass-IsFound eligible es r n (ap (λ x. x.0) (sym same) ∙ h))
    | inr same ↦
        tag_step-IsFound eligible e es r n (λ r1 h1. tag_pass-IsFound eligible es r1 n h1)
          (ap (λ x. x.0) (sym same) ∙ h)
  ]

  graph_pass-IsSome :
      (eligible : List (ProjectEntry T)) (es : List (RecentEntity T)) (r : R) (e : RecentEntity T)
      (p : ProjectEntry T) (l : GraphLink)
      → Member e es
      → Member p eligible
      → is_owner e.project_id p.project.id ≡ false
      → Member l e.graph_links
      → l.neighbour_project ≡ some p.project.id
      → IsSome (graph_pass rng chrono eligible es r).0
  unfolding graph_pass
  graph_pass-IsSome eligible [] r e p l here m other link np = absurd here
  graph_pass-IsSome eligible (d ∷ es) r e p l (inl same) m other link np =
      let (c, candidate) = graph_candidates-IsSome eligible e p l m other link np in
      or_else-IsSome (chosen (graph_nudge d) (rng.choose (graph_candidates eligible d) r))
        (λ r1. graph_pass rng chrono eligible es r1)
        (inl (
          rw same
            (drawn-IsSome rng law (graph_nudge e) c (graph_candidates eligible e) r candidate)))
  graph_pass-IsSome eligible (d ∷ es) r e p l (inr here) m other link np =
      or_else-IsSome (chosen (graph_nudge d) (rng.choose (graph_candidates eligible d) r))
        (λ r1. graph_pass rng chrono eligible es r1)
        (inr (λ r1. graph_pass-IsSome eligible es r1 e p l here m other link np))

  tag_pass-IsSome :
      (eligible : List (ProjectEntry T)) (es : List (RecentEntity T)) (r : R) (e : RecentEntity T)
      (p : ProjectEntry T) (t : Text)
      → Member e es
      → Member p eligible
      → is_owner e.project_id p.project.id ≡ false
      → Member t e.tags
      → Member t p.metadata.tags
      → IsSome (tag_pass rng chrono eligible es r).0
  unfolding tag_step
  tag_pass-IsSome eligible [] r e p t here m other mine theirs = absurd here
  tag_pass-IsSome eligible (d ∷ es) r e p t here m other mine theirs =
      elim (tag_pass-cons eligible d es r d.tags refl) [
        | inl (same, empty) ↦ elim here [
          | inl h ↦ absurd (rw (ap (λ x. x.tags) (sym h) ∙ empty) at mine)
          | inr h ↦
              subst (λ x. IsSome x.0) (sym same)
                (tag_pass-IsSome eligible es r e p t h m other mine theirs)
        ]
        | inr same ↦
            subst (λ x. IsSome x.0) (sym same)
              (or_else-IsSome (chosen (tag_nudge d) (rng.choose (overlaps eligible d) r))
                (λ r1. tag_pass rng chrono eligible es r1)
                (elim here [
                  | inl h ↦
                      let (c, candidate) = overlaps-IsSome eligible e p t m other mine theirs in
                      inl (
                        rw h
                          (drawn-IsSome rng law (tag_nudge e) c (overlaps eligible e) r candidate))
                  | inr h ↦ inr (λ r1. tag_pass-IsSome eligible es r1 e p t h m other mine theirs)
                ]))
      ]

  cross_connections-cons :
      (eligible : List (ProjectEntry T)) (e : RecentEntity T) (es : List (RecentEntity T)) (r : R)
      → cross_connections rng chrono eligible (e ∷ es) r
        ≡ or_else
            (graph_pass rng chrono eligible (rng.shuffle (e ∷ es) r).0 (rng.shuffle (e ∷ es) r).1)
            (λ r2. tag_pass rng chrono eligible (rng.shuffle (e ∷ es) r).0 r2)
  unfolding cross_connections
  cross_connections-cons eligible e es r = refl

  pub cross_connections-IsFound :
      (eligible : List (ProjectEntry T)) (es : List (RecentEntity T)) (r : R) (n : Nudge)
      → (cross_connections rng chrono eligible es r).0 ≡ some n
      → IsFound eligible es n
  unfolding cross_connections
  cross_connections-IsFound eligible [] r n h = cc
  cross_connections-IsFound eligible (e ∷ es) r n h =
      let shuffled = (rng.shuffle (e ∷ es) r).0 in
      let r1 = (rng.shuffle (e ∷ es) r).1 in
      let (e', p, m, target, kind, id, title) : IsFound eligible shuffled n =
        elim (or_else-some (graph_pass rng chrono eligible shuffled r1) _ n h) [
          | inl found ↦ graph_pass-IsFound eligible shuffled r1 n found
          | inr (r2, found) ↦ tag_pass-IsFound eligible shuffled r2 n found
        ] in
      (e', p, (law.shuffle-Member e' (e ∷ es) r).0 m, target, kind, id, title)

  pub cross_connections-IsSome :
      (eligible : List (ProjectEntry T)) (es : List (RecentEntity T)) (r : R) (e : RecentEntity T)
      (p : ProjectEntry T)
      → Member e es
      → IsTarget eligible e p
      → IsSome (cross_connections rng chrono eligible es r).0
  cross_connections-IsSome eligible [] r e p here target = absurd here
  cross_connections-IsSome eligible (d ∷ es) r e p here (m, other, joined) =
      let shuffled = (rng.shuffle (d ∷ es) r).0 in
      let r1 = (rng.shuffle (d ∷ es) r).1 in
      let there : Member e shuffled = (law.shuffle-Member e (d ∷ es) r).1 here in
      subst (λ x. IsSome x.0) (sym (cross_connections-cons eligible d es r))
        (or_else-IsSome (graph_pass rng chrono eligible shuffled r1)
          (λ r2. tag_pass rng chrono eligible shuffled r2)
          (elim joined [
            | inl (l, link, np) ↦
                inl (graph_pass-IsSome eligible shuffled r1 e p l there m other link np)
            | inr (t, mine, theirs) ↦
                inr (λ r2. tag_pass-IsSome eligible shuffled r2 e p t there m other mine theirs)
          ]))
