-- ===== src/Ideation/Select.antt =====
-- The whole selection of crates/levshell-modules/src/ideation/selector.rs.
use levshell.Prelude.{
  ◌≡◌, refl, ◌∙◌, sym, subst, ◌⊎◌, inl, inr, ◌↔◌, Member, filter_by-Member, map-Member, true, false,
  not, none, some, List, [], ◌∷◌, map, Bool-cases,
}
use levshell.Projects.{ProjectEntry}
use levshell.Cascade.Sorting.{sort_by-Member}
use levshell.Ideation.{
  NudgeKind, open_question, cross_connection, blocked_escalation, Nudge, NudgeWeights, NudgeContext,
  Chrono, Floats, Rng, kind_eq, ranked, first_kind, attempt_order, attempt, select,
}
use levshell.Ideation.Grounds.{IsRng, IsEligible, Grounds, InRange, IsJustified}
use levshell.Ideation.Sound.{HasNudge, attempt-IsJustified}
use levshell.Ideation.Finds.{attempt-HasNudge}
use levshell.Ideation.Picks.{not_iff}

abbrev pub weight_of : {N : Type 0} → NudgeWeights N → NudgeKind → N
weight_of w open_question = w.open_question
weight_of w cross_connection = w.cross_connection
weight_of w blocked_escalation = w.blocked

kind_eq→eq : (a b : NudgeKind) → kind_eq a b ≡ true → a ≡ b
unfolding kind_eq
kind_eq→eq open_question open_question h = refl
kind_eq→eq cross_connection cross_connection h = refl
kind_eq→eq blocked_escalation blocked_escalation h = refl
kind_eq→eq open_question cross_connection h = cc
kind_eq→eq open_question blocked_escalation h = cc
kind_eq→eq cross_connection open_question h = cc
kind_eq→eq cross_connection blocked_escalation h = cc
kind_eq→eq blocked_escalation open_question h = cc
kind_eq→eq blocked_escalation cross_connection h = cc

module _ {N : Type 0} where
  abbrev weighted : NudgeWeights N → List (NudgeKind × N)
  weighted w =
      (open_question, w.open_question)
      ∷ (cross_connection, w.cross_connection)
      ∷ (blocked_escalation, w.blocked)
      ∷ []

  listed :
      (w : NudgeWeights N) (k : NudgeKind)
      → Member {A = NudgeKind × N} (k, weight_of w k) (weighted w)
  listed w open_question = inl refl
  listed w cross_connection = inr (inl refl)
  listed w blocked_escalation = inr (inr (inl refl))

  listed-weight :
      (w : NudgeWeights N) (e : NudgeKind × N) → Member e (weighted w) → e.1 ≡ weight_of w e.0
  listed-weight w e (inl h) = subst (λ x. x.1 ≡ weight_of w x.0) h refl
  listed-weight w e (inr (inl h)) = subst (λ x. x.1 ≡ weight_of w x.0) h refl
  listed-weight w e (inr (inr (inl h))) = subst (λ x. x.1 ≡ weight_of w x.0) h refl
  listed-weight w e (inr (inr (inr h))) = absurd h

module _ {N : Type 0} (f : Floats N) where
  ranked-IsPositive :
      (w : NudgeWeights N) (k : NudgeKind)
      → Member k (map (λ e. e.0) (ranked f w))
      → f.is_positive (weight_of w k) ≡ true
  unfolding ranked
  ranked-IsPositive w k m =
      let (e, m1, same) = (map-Member (λ e. e.0) k (ranked f w)).0 m in
      let m2 = (sort_by-Member (λ a b. f.not_less a.1 b.1) e _).0 m1 in
      let (m3, good) = (filter_by-Member (λ e. f.is_positive e.1) e _).0 m2 in
      subst (λ c. f.is_positive (weight_of w c) ≡ true) same
        (subst (λ x. f.is_positive x ≡ true) (listed-weight w e m3) good)

  ranked-Member :
      (w : NudgeWeights N) (k : NudgeKind)
      → f.is_positive (weight_of w k) ≡ true
      → Member k (map (λ e. e.0) (ranked f w))
  unfolding ranked
  ranked-Member w k good = (map-Member (λ e. e.0) k (ranked f w)).1 (
    (k, weight_of w k),
    (sort_by-Member (λ a b. f.not_less a.1 b.1) (k, weight_of w k) _).1
        ((filter_by-Member (λ e. f.is_positive e.1) (k, weight_of w k) _).1 (listed w k, good)),
    refl,
  )

  first_kind-next :
      (k j : NudgeKind) (roll w : N) (es : List (NudgeKind × N))
      → f.is_spent (f.sub roll w) ≡ false
      → first_kind f k (f.sub roll w) es ≡ first_kind f k roll ((j, w) ∷ es)
  unfolding first_kind
  first_kind-next k j roll w es e = rw (e, first_kind) refl

  first_kind-Member :
      (k : NudgeKind) (roll : N) (es : List (NudgeKind × N))
      → (k ≡ first_kind f k roll es) ⊎ Member (first_kind f k roll es) (map (λ e. e.0) es)
  unfolding first_kind
  first_kind-Member k roll [] = inl refl
  first_kind-Member k roll ((j, w) ∷ es) = elim (Bool-cases (f.is_spent (f.sub roll w))) [
    | inl e ↦ inr (inl (rw (e, first_kind) refl))
    | inr e ↦
        subst (λ x. (k ≡ x) ⊎ Member x (j ∷ map (λ e. e.0) es)) (first_kind-next k j roll w es e)
          (elim (first_kind-Member k (f.sub roll w) es) [ inl h ↦ inl h | inr h ↦ inr (inr h) ])
  ]

  attempt_order_iff :
      (first k : NudgeKind) (es : List (NudgeKind × N))
      → Member first (map (λ e. e.0) es)
      → Member k (attempt_order f first es) ↔ Member k (map (λ e. e.0) es)
  unfolding attempt_order
  attempt_order_iff first k es m =
      let (to, from) = filter_by-Member (λ j. not (kind_eq j first)) k (map (λ e. e.0) es) in
      (
        λ h. elim h [
          | inl same ↦ subst (λ j. Member j (map (λ e. e.0) es)) same m
          | inr later ↦ (to later).0
        ],
        λ h. elim (Bool-cases (kind_eq k first)) [
          | inl e ↦ inl (sym (kind_eq→eq k first e))
          | inr e ↦ inr (from (h, (not_iff (kind_eq k first)).1 e))
        ],
      )

module _ {T N R : Type 0} (f : Floats N) (rng : Rng R N) (law : IsRng rng) (chrono : Chrono T) where
  -- The order of attempts that `select` makes, where it makes any.
  first_of : NudgeKind → N → List (NudgeKind × N) → R → NudgeKind
  first_of kind w rest r =
      first_kind f kind (f.mul (rng.gen r).0 (f.sum (w ∷ map (λ e. e.1) rest))) ((kind, w) ∷ rest)

  first_of-Member :
      (kind : NudgeKind) (w : N) (rest : List (NudgeKind × N)) (r : R)
      → Member (first_of kind w rest r) (kind ∷ map (λ e. e.0) rest)
  unfolding first_of
  first_of-Member kind w rest r =
      elim (first_kind-Member f kind (f.mul (rng.gen r).0 (f.sum (w ∷ map (λ e. e.1) rest)))
        ((kind, w) ∷ rest)) [ inl same ↦ inl same | inr m ↦ m ]

  select-cons :
      (ctx : NudgeContext T N) (r : R) (kind : NudgeKind) (w : N) (rest : List (NudgeKind × N))
      → ranked f ctx.config.weights ≡ (kind, w) ∷ rest
      → select f rng chrono ctx r
        ≡ attempt rng chrono
            (attempt_order f (first_of kind w rest r) ((kind, w) ∷ rest))
            ctx
            (rng.gen r).1
  unfolding select first_of
  select-cons ctx r kind w rest h = rw (h, select) refl

  -- If the generator keeps rand's promises, a nudge is of a kind with a positive weight and about a
  -- listed project that is not complete: an open question of that project, word for word; a recent
  -- entity of another project, or of none, that has a link to it or a tag in common; or a project
  -- that is blocked or has not changed since the configured time.
  pub select-IsJustified :
      (ctx : NudgeContext T N) (r : R) (n : Nudge) (r' : R)
      → select f rng chrono ctx r ≡ some (some n, r')
      → (f.is_positive (weight_of ctx.config.weights n.kind) ≡ true)
        × IsJustified chrono ctx n.kind n
  unfolding select
  select-IsJustified ctx r n r' h = go (ranked f ctx.config.weights) refl
    where
      go :
          (es : List (NudgeKind × N))
          → ranked f ctx.config.weights ≡ es
          → (f.is_positive (weight_of ctx.config.weights n.kind) ≡ true)
            × IsJustified chrono ctx n.kind n
      go [] e = absurd (let bad : some (none, r) ≡ some (some n, r') = rw (e, select) at h in cc)
      go ((kind, w) ∷ rest) e =
          let (k, m, (p, listed, grounds, same, id, title, says)) =
            attempt-IsJustified rng law chrono _ ctx (rng.gen r).1 n r'
              (sym (select-cons ctx r kind w rest e) ∙ h) in
          let m1 =
            (attempt_order_iff f (first_of kind w rest r) k ((kind, w) ∷ rest)
                (first_of-Member kind w rest r)).0
              m in
          subst
            (λ c.
              (f.is_positive (weight_of ctx.config.weights c) ≡ true) × IsJustified chrono ctx c n)
            (sym same)
            (
              ranked-IsPositive f ctx.config.weights k (rw e m1),
              (p, listed, grounds, same, id, title, says),
            )

  -- If the generator keeps rand's promises and both windows are in the range of chrono, then whenever
  -- a kind with a positive weight has grounds in a listed project that is not complete, a nudge is
  -- sent, whatever the roll and whichever kinds come first.
  pub select-HasNudge :
      (ctx : NudgeContext T N) (r : R) (kind : NudgeKind) (p : ProjectEntry T)
      → f.is_positive (weight_of ctx.config.weights kind) ≡ true
      → InRange chrono ctx
      → IsEligible ctx p
      → Grounds chrono ctx kind p
      → HasNudge (select f rng chrono ctx r)
  select-HasNudge ctx r kind p good range listed grounds = go (ranked f ctx.config.weights) refl
    where
      go :
          (es : List (NudgeKind × N))
          → ranked f ctx.config.weights ≡ es
          → HasNudge (select f rng chrono ctx r)
      go [] e = absurd (rw e at (ranked-Member f ctx.config.weights kind good))
      go ((k, w) ∷ rest) e =
          let m : Member kind (k ∷ map (λ x. x.0) rest) =
            rw e at (ranked-Member f ctx.config.weights kind good) in
          subst HasNudge (sym (select-cons ctx r k w rest e)) (
            attempt-HasNudge rng law chrono _ ctx (rng.gen r).1 kind p
              ((attempt_order_iff f (first_of k w rest r) kind ((k, w) ∷ rest)
                  (first_of-Member k w rest r)).1
                m)
              range listed grounds)
