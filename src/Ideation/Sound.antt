-- ===== src/Ideation/Sound.antt =====
-- Which nudges crates/levshell-modules/src/ideation/selector.rs sends.
use levshell.Prelude.{
  ◌≡◌, refl, ◌∙◌, ap, subst, inl, inr, Member, filter_by-Member, map-Member, Option, none, some,
  List, [], ◌∷◌, filter_by, Bool-cases, Option-cases,
}
use levshell.Ideation.{
  NudgeKind, open_question, cross_connection, blocked_escalation, Nudge, NudgeContext, Chrono, Rng,
  is_blocked, eligible_projects, horizon, stale_cutoff, chosen, nudge_about, questions, needs_step,
  fresh, blocked_body, pick_open_question, cross_connections, pick_cross_connection,
  pick_blocked_escalation,
}
use levshell.Ideation.Grounds.{IsRng, IsStuck, IsJustified, flat_map-Member}
use levshell.Ideation.Picks.{drawn, eligible_projects_iff}
use levshell.Ideation.Found.{cross_connections-IsFound}
use levshell.Ideation.{pick, attempt}

-- A draw that neither panics nor comes out empty.
abbrev pub HasNudge : {R : Type 0} → Option (Option Nudge × R) → Type 0
HasNudge {R} o = (n : Nudge) × (r : R) × (o ≡ some (some n, r))

module _ {T N R : Type 0} (rng : Rng R N) (law : IsRng rng) (chrono : Chrono T) where
  pick_open_question-IsJustified :
      (ctx : NudgeContext T N) (r : R) (n : Nudge)
      → (pick_open_question rng chrono ctx r).0 ≡ some n
      → IsJustified chrono ctx open_question n
  unfolding pick_open_question nudge_about questions
  pick_open_question-IsJustified ctx r n h =
      drawn rng law (λ x. IsJustified chrono ctx open_question x) _ _ r n
        (λ c m.
          let (p, listed, mine) = (flat_map-Member questions c (eligible_projects ctx)).0 m in
          let (q, here, same) = (map-Member (λ x. (p, x)) c p.project.open_questions).0 mine in
          subst (λ d. IsJustified chrono ctx open_question (nudge_about d.0 open_question d.1)) same
            (p, (eligible_projects_iff ctx p).0 listed, (q, here), refl, refl, refl, here))
        h

  pick_cross_connection-IsJustified :
      (ctx : NudgeContext T N) (since : T) (r : R) (n : Nudge)
      → horizon chrono ctx ≡ some since
      → (cross_connections rng chrono (eligible_projects ctx) (fresh chrono ctx since) r).0 ≡ some n
      → IsJustified chrono ctx cross_connection n
  unfolding fresh
  pick_cross_connection-IsJustified ctx since r n range h =
      let (e, p, here, (m, other, joined), kind, id, title) =
        cross_connections-IsFound rng law chrono (eligible_projects ctx) (fresh chrono ctx since) r
          n h in
      let (listed, recent) =
        (filter_by-Member (λ x. chrono.not_before x.updated_at since) e ctx.recent_entities).0
          here in
      (
        p,
        (eligible_projects_iff ctx p).0 m,
        (e, (listed, (since, range, recent)), other, joined),
        kind,
        id,
        title,
        tt,
      )

  pick_blocked-IsJustified :
      (ctx : NudgeContext T N) (cutoff : T) (r : R) (n : Nudge)
      → stale_cutoff chrono ctx ≡ some cutoff
      → (chosen
          (λ p. nudge_about p blocked_escalation (blocked_body chrono p))
          (rng.choose (filter_by (needs_step chrono cutoff) (eligible_projects ctx)) r)).0
        ≡ some n
      → IsJustified chrono ctx blocked_escalation n
  unfolding nudge_about needs_step
  pick_blocked-IsJustified ctx cutoff r n range h =
      drawn rng law (λ x. IsJustified chrono ctx blocked_escalation x) _ _ r n
        (λ p m.
          let (listed, stuck) =
            (filter_by-Member (needs_step chrono cutoff) p (eligible_projects ctx)).0 m in
          let grounds : IsStuck chrono ctx p = elim (Bool-cases (is_blocked p.project.status)) [
            | inl e ↦ inl e
            | inr e ↦ inr (cutoff, range, rw e at stuck)
          ] in
          (p, (eligible_projects_iff ctx p).0 listed, grounds, refl, refl, refl, tt))
        h

  pick-IsJustified :
      (kind : NudgeKind) (ctx : NudgeContext T N) (r : R) (n : Nudge) (r' : R)
      → pick rng chrono kind ctx r ≡ some (some n, r')
      → IsJustified chrono ctx kind n
  unfolding pick pick_cross_connection pick_blocked_escalation
  pick-IsJustified open_question ctx r n r' h =
      let drawn_n : pick_open_question rng chrono ctx r ≡ (some n, r') = cc in
      pick_open_question-IsJustified ctx r n (ap (λ x. x.0) drawn_n)
  pick-IsJustified cross_connection ctx r n r' h = elim (Option-cases (horizon chrono ctx)) [
    | inl e ↦
        absurd (let bad : none ≡ some (some n, r') = rw (e, pick, pick_cross_connection) at h in cc)
    | inr (since, e) ↦
        let found : some
              (cross_connections rng chrono (eligible_projects ctx) (fresh chrono ctx since) r)
            ≡ some (some n, r') =
          rw (e, pick, pick_cross_connection) at h in
        let drawn_n : cross_connections rng chrono (eligible_projects ctx) (fresh chrono ctx since)
              r
            ≡ (some n, r') =
          cc in
        pick_cross_connection-IsJustified ctx since r n e (ap (λ x. x.0) drawn_n)
  ]
  pick-IsJustified blocked_escalation ctx r n r' h = elim (Option-cases (stale_cutoff chrono ctx)) [
    | inl e ↦
        absurd
          (let bad : none ≡ some (some n, r') = rw (e, pick, pick_blocked_escalation) at h in cc)
    | inr (cutoff, e) ↦
        let draw =
          chosen (λ p. nudge_about p blocked_escalation (blocked_body chrono p))
            (rng.choose (filter_by (needs_step chrono cutoff) (eligible_projects ctx)) r) in
        let found : some draw ≡ some (some n, r') = rw (e, pick, pick_blocked_escalation) at h in
        let drawn_n : draw ≡ (some n, r') = cc in
        pick_blocked-IsJustified ctx cutoff r n e (ap (λ x. x.0) drawn_n)
  ]

  pub attempt-IsJustified :
      (kinds : List NudgeKind) (ctx : NudgeContext T N) (r : R) (n : Nudge) (r' : R)
      → attempt rng chrono kinds ctx r ≡ some (some n, r')
      → (kind : NudgeKind) × Member kind kinds × IsJustified chrono ctx kind n
  unfolding attempt
  attempt-IsJustified [] ctx r n r' h = cc
  attempt-IsJustified (kind ∷ kinds) ctx r n r' h =
      go (λ r1 h1. attempt-IsJustified kinds ctx r1 n r' h1) (pick rng chrono kind ctx r) refl
    where
      go :
          ((r1 : R)
            → attempt rng chrono kinds ctx r1 ≡ some (some n, r')
            → (k : NudgeKind) × Member k kinds × IsJustified chrono ctx k n)
          → (x : Option (Option Nudge × R)) → pick rng chrono kind ctx r ≡ x
          → (k : NudgeKind) × Member k (kind ∷ kinds) × IsJustified chrono ctx k n
      go rest none e = absurd (let bad : none ≡ some (some n, r') = rw (e, attempt) at h in cc)
      go rest (some (some m, r1)) e =
          let found : some (some m, r1) ≡ some (some n, r') = rw (e, attempt) at h in
          (kind, inl refl, pick-IsJustified kind ctx r n r' (e ∙ found))
      go rest (some (none, r1)) e =
          let (k, m, good) = rest r1 (rw (e, attempt) at h) in (k, inr m, good)
