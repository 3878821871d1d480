-- ===== src/Ideation/Grounds.antt =====
-- The grounds on which crates/levshell-modules/src/ideation/selector.rs may send a nudge, and lemmas
-- on the lists that it draws from.
use levshell.Prelude.{
  ◌≡◌, refl, sym, subst, ◌⊎◌, inl, inr, ◌↔◌, Text, Member, true, false, some, List, [], ◌∷◌,
  append-Member,
}
use levshell.Projects.{ProjectEntry}
use levshell.Ideation.{
  NudgeKind, open_question, cross_connection, blocked_escalation, Nudge, NudgeContext, RecentEntity,
  GraphLink, Chrono, Rng, is_complete, is_blocked, is_owner, flat_map, horizon, stale_cutoff,
}

-- What rand promises: a choice is a member, and is made if there is one; a shuffle keeps the members.
pub record IsRng {R N : Type 0} (rng : Rng R N) : Type 1 where
  pub choose-Member :
      {A : Type 0} (a : A) (xs : List A) (r : R) → (rng.choose xs r).0 ≡ some a → Member a xs
  pub choose-some :
      {A : Type 0} (a : A) (xs : List A) (r : R)
      → Member a xs
      → (b : A) × ((rng.choose xs r).0 ≡ some b)
  pub shuffle-Member :
      {A : Type 0} (a : A) (xs : List A) (r : R) → Member a (rng.shuffle xs r).0 ↔ Member a xs

module _ {T : Type 0} where
  -- A project that is listed and not complete.
  abbrev pub IsEligible : {N : Type 0} → NudgeContext T N → ProjectEntry T → Type 0
  IsEligible ctx p = Member p ctx.projects × (is_complete p.project.status ≡ false)

  -- A link of the entity to the project, or a tag that both have.
  abbrev pub IsConnected : RecentEntity T → ProjectEntry T → Type 0
  IsConnected e p =
      ((l : GraphLink) × Member l e.graph_links × (l.neighbour_project ≡ some p.project.id))
      ⊎ ((t : Text) × Member t e.tags × Member t p.metadata.tags)

  -- An open question is asked as it stands.
  abbrev pub Says : NudgeKind → ProjectEntry T → Text → Type 0
  Says open_question p body = Member body p.project.open_questions
  Says cross_connection p body = Unit
  Says blocked_escalation p body = Unit

module _ {T N : Type 0} (chrono : Chrono T) (ctx : NudgeContext T N) where
  -- An entity changed within the window.
  abbrev pub IsFresh : RecentEntity T → Type 0
  IsFresh e =
      Member e ctx.recent_entities
      × ((since : T) × (horizon chrono ctx ≡ some since)
          × (chrono.not_before e.updated_at since ≡ true))

  abbrev pub IsStuck : ProjectEntry T → Type 0
  IsStuck p =
      (is_blocked p.project.status ≡ true)
      ⊎ ((cutoff : T) × (stale_cutoff chrono ctx ≡ some cutoff)
          × (chrono.is_before p.project.updated_at cutoff ≡ true))

  -- The windows are within the range of chrono.
  abbrev pub InRange : Type 0
  InRange =
      ((since : T) × (horizon chrono ctx ≡ some since))
      × ((cutoff : T) × (stale_cutoff chrono ctx ≡ some cutoff))

  -- What a nudge of the kind needs of the project.
  abbrev pub Grounds : NudgeKind → ProjectEntry T → Type 0
  Grounds open_question p = (q : Text) × Member q p.project.open_questions
  Grounds cross_connection p =
      (e : RecentEntity T) × IsFresh e
      × (is_owner e.project_id p.project.id ≡ false)
      × IsConnected e p
  Grounds blocked_escalation p = IsStuck p

  abbrev pub IsJustified : NudgeKind → Nudge → Type 0
  IsJustified kind n =
      (p : ProjectEntry T) × IsEligible ctx p
      × Grounds kind p
      × (n.kind ≡ kind)
      × (n.project_id ≡ p.project.id)
      × (n.title ≡ p.project.name)
      × Says kind p n.body

module _ {A B : Type 0} where
  pub flat_map-Member :
      (f : A → List B) (b : B) (xs : List A)
      → Member b (flat_map f xs) ↔ ((a : A) × Member a xs × Member b (f a))
  unfolding flat_map
  flat_map-Member f b [] = (λ m. absurd m, λ (a, m, e). absurd m)
  flat_map-Member f b (x ∷ xs) = (
    λ m. elim ((append-Member b (f x) (flat_map f xs)).0 m) [
      | inl h ↦ (x, inl refl, h)
      | inr h ↦ let (a, m', e) = (flat_map-Member f b xs).0 h in (a, inr m', e)
    ],
    λ (a, m, e). (append-Member b (f x) (flat_map f xs)).1 (elim m [
      | inl h ↦ inl (subst (λ y. Member b (f y)) (sym h) e)
      | inr h ↦ inr ((flat_map-Member f b xs).1 (a, h, e))
    ]),
  )
