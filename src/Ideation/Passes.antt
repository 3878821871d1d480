-- ===== src/Ideation/Passes.antt =====
-- The two passes of crates/levshell-modules/src/ideation/selector.rs that look for a connection
-- between a recent entity and a project of others.
use levshell.Prelude.{
  ◌≡◌, refl, ap, subst, inl, inr, ◌↔◌, Text, text_eq, text_eq_iff, Member, filter_by-Member,
  any_of-Member, map-Member, Bool, false, not, Option, none, some, List, [], ◌∷◌, any_of,
}
use levshell.Projects.{ProjectEntry}
use levshell.Ideation.{
  cross_connection, Nudge, RecentEntity, GraphLink, is_owner, to_list, link_target,
  graph_candidates, common_tags, with_common, overlaps,
}
use levshell.Ideation.Grounds.{IsConnected, flat_map-Member}
use levshell.Ideation.Picks.{not_iff, link_target-some, link_target-IsSome}

to_list-Member : {A : Type 0} (a : A) (o : Option A) → Member a (to_list o) ↔ (o ≡ some a)
to_list-Member a none = (λ m. absurd m, λ h. cc)
to_list-Member a (some b) = (λ m. elim m [ inl h ↦ ap some h | inr h ↦ absurd h ], λ h. inl cc)

module _ {T : Type 0} (eligible : List (ProjectEntry T)) where
  -- A candidate that the entity does not belong to, and is connected with.
  abbrev pub IsTarget : RecentEntity T → ProjectEntry T → Type 0
  IsTarget e p = Member p eligible × (is_owner e.project_id p.project.id ≡ false) × IsConnected e p

  -- A nudge for a target of one of the entities.
  abbrev pub IsFound : List (RecentEntity T) → Nudge → Type 0
  IsFound es n =
      (e : RecentEntity T) × (p : ProjectEntry T) × Member e es
      × IsTarget e p
      × (n.kind ≡ cross_connection)
      × (n.project_id ≡ p.project.id)
      × (n.title ≡ p.project.name)

  pub IsFound-later :
      (e : RecentEntity T) (es : List (RecentEntity T)) (n : Nudge)
      → IsFound es n
      → IsFound (e ∷ es) n
  IsFound-later e es n (e', p, m, target, kind, id, title) = (e', p, inr m, target, kind, id, title)

  pub graph_candidates-IsTarget :
      (e : RecentEntity T) (c : ProjectEntry T × GraphLink)
      → Member c (graph_candidates eligible e)
      → IsTarget e c.0
  unfolding graph_candidates
  graph_candidates-IsTarget e c m =
      let (l, here, m1) = (flat_map-Member _ c e.graph_links).0 m in
      let (p, m2, same) =
        (map-Member (λ q. (q, l)) c
            (to_list (link_target eligible e.project_id l.neighbour_project))).0
          m1 in
      let (np, other, m3) =
        link_target-some eligible e.project_id l.neighbour_project p ((to_list-Member p _).0 m2) in
      subst (λ q. IsTarget e q) (ap (λ x. x.0) same) (m3, other, inl (l, here, np))

  pub graph_candidates-IsSome :
      (e : RecentEntity T) (p : ProjectEntry T) (l : GraphLink)
      → Member p eligible
      → is_owner e.project_id p.project.id ≡ false
      → Member l e.graph_links
      → l.neighbour_project ≡ some p.project.id
      → (c : ProjectEntry T × GraphLink) × Member c (graph_candidates eligible e)
  unfolding graph_candidates
  graph_candidates-IsSome e p l m other here np =
      let (q, found) = link_target-IsSome eligible e.project_id l.neighbour_project p np other m in
      (
        (q, l),
        (flat_map-Member _ (q, l) e.graph_links).1 (
          l,
          here,
          (map-Member (λ x. (x, l)) (q, l) _).1 (q, (to_list-Member q _).1 found, refl),
        ),
      )

  common_tags_iff :
      (e : RecentEntity T) (p : ProjectEntry T) (t : Text)
      → Member t (common_tags e p) ↔ (Member t e.tags × Member t p.metadata.tags)
  unfolding common_tags
  common_tags_iff e p t =
      let shared : Text → Bool = λ s. any_of (λ et. text_eq et s) e.tags in
      let (to, from) = filter_by-Member shared t p.metadata.tags in
      let (seen, see) = any_of-Member (λ et. text_eq et t) e.tags in
      (
        λ m.
            let (m', ok) = to m in
            let (et, here, same) = seen ok in
            (subst (λ x. Member x e.tags) ((text_eq_iff et t).0 same) here, m'),
        λ m. from (m.1, see (t, m.0, (text_eq_iff t t).1 refl)),
      )

  with_common-some :
      (p : ProjectEntry T) (ts : List Text) (c : ProjectEntry T × List Text)
      → Member c (with_common p ts)
      → (p ≡ c.0) × ((t : Text) × Member t ts)
  with_common-some p [] c m = absurd m
  with_common-some p (t ∷ ts) c (inl h) = (ap (λ x. x.0) h, (t, inl refl))
  with_common-some p (t ∷ ts) c (inr h) = absurd h

  with_common-IsSome :
      (p : ProjectEntry T) (ts : List Text) (t : Text)
      → Member t ts
      → Member (p, ts) (with_common p ts)
  with_common-IsSome p [] t m = m
  with_common-IsSome p (u ∷ ts) t m = inl refl

  pub overlaps-IsTarget :
      (e : RecentEntity T) (c : ProjectEntry T × List Text)
      → Member c (overlaps eligible e)
      → IsTarget e c.0
  unfolding overlaps
  overlaps-IsTarget e c m =
      let (p, m1, m2) = (flat_map-Member _ c _).0 m in
      let (m3, other) =
        (filter_by-Member (λ q. not (is_owner e.project_id q.project.id)) p eligible).0 m1 in
      let (same, (t, mt)) = with_common-some p (common_tags e p) c m2 in
      subst (λ q. IsTarget e q) same
        (let (mine, theirs) = (common_tags_iff e p t).0 mt in
          (m3, (not_iff _).0 other, inr (t, mine, theirs)))

  pub overlaps-IsSome :
      (e : RecentEntity T) (p : ProjectEntry T) (t : Text)
      → Member p eligible
      → is_owner e.project_id p.project.id ≡ false
      → Member t e.tags
      → Member t p.metadata.tags
      → (c : ProjectEntry T × List Text) × Member c (overlaps eligible e)
  unfolding overlaps
  overlaps-IsSome e p t m other mine theirs = (
    (p, common_tags e p),
    (flat_map-Member _ _ _).1 (
      p,
      (filter_by-Member (λ q. not (is_owner e.project_id q.project.id)) p eligible).1
          (m, (not_iff _).1 other),
      with_common-IsSome p (common_tags e p) t ((common_tags_iff e p t).1 (mine, theirs)),
    ),
  )
