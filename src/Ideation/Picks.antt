-- ===== src/Ideation/Picks.antt =====
-- What the draws of crates/levshell-modules/src/ideation/selector.rs may give, and when they give
-- something.
use levshell.Prelude.{
  ◌≡◌, refl, ◌∙◌, ap, sym, subst, ◌⊎◌, inl, inr, ◌↔◌, Member, filter_by-Member, Bool, true, false,
  not, ◌==◌, ==_iff, Option, none, some, List, [], ◌∷◌, arith, Bool-cases,
}
use levshell.Projects.{Uuid, ProjectEntry}
use levshell.Ideation.{
  Nudge, NudgeContext, Rng, is_complete, is_owner, find_project, eligible_projects, chosen, or_else,
  link_target,
}
use levshell.Ideation.Grounds.{IsRng, IsEligible}

abbrev pub IsSome : {A : Type 0} → Option A → Type 0
IsSome {A} o = (a : A) × (o ≡ some a)

pub not_iff : (b : Bool) → (not b ≡ true) ↔ (b ≡ false)
not_iff b = ground arith

module _ {A B R : Type 0} where
  pub chosen-some :
      (f : A → B) (x : Option A × R) (b : B)
      → (chosen f x).0 ≡ some b
      → (a : A) × (x.0 ≡ some a) × (f a ≡ b)
  chosen-some f (none, r) b h = cc
  chosen-some f (some a, r) b h = (a, refl, cc)

  chosen-IsSome : (f : A → B) (x : Option A × R) → IsSome x.0 → IsSome (chosen f x).0
  chosen-IsSome f (none, r) (a, h) = cc
  chosen-IsSome f (some a, r) h = (f a, refl)

module _ {B R : Type 0} where
  pub or_else-some :
      (x : Option B × R) (next : R → Option B × R) (b : B)
      → (or_else x next).0 ≡ some b
      → (x.0 ≡ some b) ⊎ ((r : R) × ((next r).0 ≡ some b))
  or_else-some (some c, r) next b h = inl h
  or_else-some (none, r) next b h = inr (r, h)

  pub or_else-IsSome :
      (x : Option B × R) (next : R → Option B × R)
      → IsSome x.0 ⊎ ((r : R) → IsSome (next r).0)
      → IsSome (or_else x next).0
  or_else-IsSome (some c, r) next h = (c, refl)
  or_else-IsSome (none, r) next (inl (a, h)) = cc
  or_else-IsSome (none, r) next (inr h) = h r

module _ {N R : Type 0} (rng : Rng R N) (law : IsRng rng) where
  -- Every nudge that may be drawn has the property, so the drawn one has it.
  pub drawn :
      {A : Type 0} (P : Nudge → Type 0) (f : A → Nudge) (xs : List A) (r : R) (n : Nudge)
      → ((a : A) → Member a xs → P (f a))
      → (chosen f (rng.choose xs r)).0 ≡ some n
      → P n
  drawn P f xs r n good h =
      let (a, e, same) = chosen-some f (rng.choose xs r) n h in
      subst P same (good a (law.choose-Member a xs r e))

  pub drawn-IsSome :
      {A : Type 0} (f : A → Nudge) (a : A) (xs : List A) (r : R)
      → Member a xs
      → IsSome (chosen f (rng.choose xs r)).0
  drawn-IsSome f a xs r m = chosen-IsSome f (rng.choose xs r) (law.choose-some a xs r m)

module _ {T : Type 0} where
  pub eligible_projects_iff :
      {N : Type 0} (ctx : NudgeContext T N) (p : ProjectEntry T)
      → Member p (eligible_projects ctx) ↔ IsEligible ctx p
  unfolding eligible_projects
  eligible_projects_iff ctx p =
      let (to, from) = filter_by-Member (λ q. not (is_complete q.project.status)) p ctx.projects in
      let (unseal, seal) = not_iff (is_complete p.project.status) in
      (λ m. let (m', e) = to m in (m', unseal e), λ m. from (m.0, seal m.1))

  find_project-some :
      (id : Uuid) (ps : List (ProjectEntry T)) (p : ProjectEntry T)
      → find_project id ps ≡ some p
      → (p.project.id ≡ id) × Member p ps
  unfolding find_project
  find_project-some id [] p h = cc
  find_project-some id (q ∷ ps) p h = elim (Bool-cases (q.project.id == id)) [
    | inl e ↦
        let same : q ≡ p = (let found : some q ≡ some p = rw e at h in cc) in
        (ap (λ x. x.project.id) (sym same) ∙ (==_iff q.project.id id).0 e, inl same)
    | inr e ↦ let (same, m) = find_project-some id ps p (rw e at h) in (same, inr m)
  ]

  find_project-IsSome :
      (p : ProjectEntry T) (ps : List (ProjectEntry T))
      → Member p ps
      → IsSome (find_project p.project.id ps)
  unfolding find_project
  find_project-IsSome p [] m = absurd m
  find_project-IsSome p (q ∷ ps) m = elim (Bool-cases (q.project.id == p.project.id)) [
    | inl e ↦ (q, rw e refl)
    | inr e ↦ elim m [
      | inl h ↦ absurd (
          let bad : (q.project.id == p.project.id) ≡ true =
            rw h ((==_iff p.project.id p.project.id).1 refl) in
          cc)
      | inr h ↦ rw e (find_project-IsSome p ps h)
    ]
  ]

  pub link_target-some :
      (eligible : List (ProjectEntry T)) (own np : Option Uuid) (p : ProjectEntry T)
      → link_target eligible own np ≡ some p
      → (np ≡ some p.project.id) × (is_owner own p.project.id ≡ false) × Member p eligible
  unfolding link_target
  link_target-some eligible own none p h = cc
  link_target-some eligible own (some id) p h = elim (Bool-cases (is_owner own id)) [
    | inl e ↦ absurd (let bad : none ≡ some p = rw e at h in cc)
    | inr e ↦
        let (same, m) = find_project-some id eligible p (rw e at h) in
        (ap some (sym same), ap (is_owner own) same ∙ e, m)
  ]

  pub link_target-IsSome :
      (eligible : List (ProjectEntry T)) (own np : Option Uuid) (p : ProjectEntry T)
      → np ≡ some p.project.id
      → is_owner own p.project.id ≡ false
      → Member p eligible
      → IsSome (link_target eligible own np)
  unfolding link_target
  link_target-IsSome eligible own np p h e m = rw (h, e) (find_project-IsSome p eligible m)
