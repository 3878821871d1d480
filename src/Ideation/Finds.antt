-- ===== src/Ideation/Finds.antt =====
-- When a draw of crates/levshell-modules/src/ideation/selector.rs gives a nudge.
use levshell.Prelude.{
  ◌≡◌, refl, ◌∙◌, sym, subst, ◌⊎◌, inl, inr, Member, filter_by-Member, map-Member, true, Option,
  none, some, List, [], ◌∷◌, filter_by, arith,
}
use levshell.Projects.{ProjectEntry}
use levshell.Ideation.{
  NudgeKind, open_question, cross_connection, blocked_escalation, Nudge, NudgeContext, Chrono, Rng,
  eligible_projects, horizon, stale_cutoff, chosen, nudge_about, questions, needs_step, fresh,
  blocked_body, pick_open_question, cross_connections, pick_cross_connection,
  pick_blocked_escalation,
}
use levshell.Ideation.Grounds.{IsRng, IsEligible, Grounds, InRange, flat_map-Member}
use levshell.Ideation.Picks.{IsSome, drawn-IsSome, eligible_projects_iff}
use levshell.Ideation.Found.{cross_connections-IsSome}
use levshell.Ideation.{pick, attempt}
use levshell.Ideation.Sound.{HasNudge}

module _ {T N R : Type 0} (rng : Rng R N) (law : IsRng rng) (chrono : Chrono T) where
  HasNudge-some : (x : Option Nudge × R) → IsSome x.0 → HasNudge (some x)
  HasNudge-some (none, r) (n, h) = cc
  HasNudge-some (some m, r) h = (m, r, refl)

  pick_cross_connection-at :
      (ctx : NudgeContext T N) (since : T) (r : R)
      → horizon chrono ctx ≡ some since
      → pick_cross_connection rng chrono ctx r
        ≡ some (cross_connections rng chrono (eligible_projects ctx) (fresh chrono ctx since) r)
  unfolding pick_cross_connection
  pick_cross_connection-at ctx since r h = rw (h, pick_cross_connection) refl

  pick_blocked_escalation-at :
      (ctx : NudgeContext T N) (cutoff : T) (r : R)
      → stale_cutoff chrono ctx ≡ some cutoff
      → pick_blocked_escalation rng chrono ctx r
        ≡ some (
            chosen
              (λ p. nudge_about p blocked_escalation (blocked_body chrono p))
              (rng.choose (filter_by (needs_step chrono cutoff) (eligible_projects ctx)) r))
  unfolding pick_blocked_escalation
  pick_blocked_escalation-at ctx cutoff r h = rw (h, pick_blocked_escalation) refl

  pick-HasNudge :
      (kind : NudgeKind) (ctx : NudgeContext T N) (r : R) (p : ProjectEntry T)
      → InRange chrono ctx
      → IsEligible ctx p
      → Grounds chrono ctx kind p
      → HasNudge (pick rng chrono kind ctx r)
  unfolding pick pick_open_question questions needs_step fresh
  pick-HasNudge open_question ctx r p range m (q, here) = HasNudge-some _ (
      drawn-IsSome rng law _ (p, q) _ r
        ((flat_map-Member questions (p, q) (eligible_projects ctx)).1 (
          p,
          (eligible_projects_iff ctx p).1 m,
          (map-Member (λ x. (p, x)) (p, q) p.project.open_questions).1 (q, here, refl),
        )))
  pick-HasNudge cross_connection ctx r p range m (e, fresh_e, other, joined) =
      let (listed, (since, found, recent)) = fresh_e in
      let here : Member e (fresh chrono ctx since) =
        (filter_by-Member (λ x. chrono.not_before x.updated_at since) e ctx.recent_entities).1
          (listed, recent) in
      subst HasNudge (sym (pick_cross_connection-at ctx since r found)) (
        HasNudge-some _ (
          cross_connections-IsSome rng law chrono (eligible_projects ctx) (fresh chrono ctx since) r
            e p here ((eligible_projects_iff ctx p).1 m, other, joined)))
  pick-HasNudge blocked_escalation ctx r p range m stuck =
      let (cutoff, found) = range.1 in
      let needed : needs_step chrono cutoff p ≡ true = elim stuck [
        | inl e ↦ rw (e, needs_step) refl
        | inr (cutoff', found', old) ↦
            let same : cutoff' ≡ cutoff =
              (let both : some cutoff' ≡ some cutoff = sym found' ∙ found in cc) in
            let older : chrono.is_before p.project.updated_at cutoff ≡ true =
              subst (λ c. chrono.is_before p.project.updated_at c ≡ true) same old in
            ground (arith, older)
      ] in
      subst HasNudge (sym (pick_blocked_escalation-at ctx cutoff r found)) (
        HasNudge-some _ (
          drawn-IsSome rng law _ p _ r (
            (filter_by-Member (needs_step chrono cutoff) p (eligible_projects ctx)).1
              ((eligible_projects_iff ctx p).1 m, needed))))

  pick-total :
      (kind : NudgeKind) (ctx : NudgeContext T N) (r : R)
      → InRange chrono ctx
      → (x : Option Nudge × R) × (pick rng chrono kind ctx r ≡ some x)
  unfolding pick
  pick-total open_question ctx r range = (pick_open_question rng chrono ctx r, refl)
  pick-total cross_connection ctx r ((since, found), stale) =
      (_, pick_cross_connection-at ctx since r found)
  pick-total blocked_escalation ctx r (recent, (cutoff, found)) =
      (_, pick_blocked_escalation-at ctx cutoff r found)

  attempt-cons :
      (kind : NudgeKind) (kinds : List NudgeKind) (ctx : NudgeContext T N) (r : R)
      (x : Option Nudge × R)
      → pick rng chrono kind ctx r ≡ some x
      → IsSome x.0 ⊎ ((r1 : R) → HasNudge (attempt rng chrono kinds ctx r1))
      → HasNudge (attempt rng chrono (kind ∷ kinds) ctx r)
  unfolding attempt
  attempt-cons kind kinds ctx r (some n, r1) h rest = (n, r1, rw (h, attempt) refl)
  attempt-cons kind kinds ctx r (none, r1) h (inl (n, found)) = cc
  attempt-cons kind kinds ctx r (none, r1) h (inr rest) =
      let (n, r2, found) = rest r1 in (n, r2, rw (h, attempt) found)

  pub attempt-HasNudge :
      (kinds : List NudgeKind) (ctx : NudgeContext T N) (r : R) (kind : NudgeKind)
      (p : ProjectEntry T)
      → Member kind kinds
      → InRange chrono ctx
      → IsEligible ctx p
      → Grounds chrono ctx kind p
      → HasNudge (attempt rng chrono kinds ctx r)
  attempt-HasNudge [] ctx r kind p m range listed grounds = absurd m
  attempt-HasNudge (k ∷ kinds) ctx r kind p (inl same) range listed grounds =
      let (n, r1, found) = pick-HasNudge kind ctx r p range listed grounds in
      attempt-cons k kinds ctx r (some n, r1) (rw same found) (inl (n, refl))
  attempt-HasNudge (k ∷ kinds) ctx r kind p (inr m) range listed grounds =
      let (x, found) = pick-total k ctx r range in
      attempt-cons k kinds ctx r x found
        (inr (λ r1. attempt-HasNudge kinds ctx r1 kind p m range listed grounds))
