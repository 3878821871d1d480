-- ===== src/ContextEngine/Profiles.antt =====
-- Which profile is active in crates/levshell-modules/src/context_engine.rs.
use native.Mathlib.Nat.{mod-lt}
use levshell.Prelude.{
  ℕ, zero, suc, ◌+◌, ◌-◌, ◌%◌, ◌<◌, ◌≡◌, refl, inl, inr, Text, text_eq, text_eq_refl, text_le,
  bytes, Member, Bool, true, Option, none, some, List, [], ◌∷◌, length, map, any_of, arith,
  Bool-cases,
}
use levshell.Rules.{Profile}
use levshell.Cascade.Sorting.{sort_by-Member, length-sort_by}
use levshell.ContextEngine.State.{ContextEngine}
use levshell.ContextEngine.Actions.{
  has_profile, is_active, activate, deactivate, cycle, next_profile, names, get_elem?, next_in,
  position, unwrap_or, apply_profile_action,
}

module _ {A : Type 0} where
  pub get_elem?-Member :
      (xs : List A) (i : ℕ) → i < length xs → (a : A) × (get_elem? xs i ≡ some a) × Member a xs
  unfolding get_elem?
  get_elem?-Member [] i h = absurd (omega arith)
  get_elem?-Member (x ∷ xs) zero h = (x, refl, inl refl)
  get_elem?-Member (x ∷ xs) (suc i) h =
      let (a, found, here) = get_elem?-Member xs i (omega arith) in (a, found, inr here)

  pub next_in-Member :
      (p : A → Bool) (xs : List A) → 0 < length xs → (a : A) × (next_in p xs ≡ some a) × Member a xs
  unfolding next_in
  next_in-Member p xs h =
      get_elem?-Member xs ((unwrap_or (position p xs) (length xs - 1) + 1) % length xs)
        (mod-lt (unwrap_or (position p xs) (length xs - 1) + 1) h)

module _ {N : Type 0} where
  has_profile-Member :
      (name : Text) (ps : List (Profile N))
      → Member name (map (λ p. p.name) ps)
      → has_profile ps name ≡ true
  unfolding any_of
  has_profile-Member name [] (m) = absurd m
  has_profile-Member name (p ∷ ps) (inl e) = rw (e, text_eq_refl name) refl
  has_profile-Member name (p ∷ ps) (inr m) = ground (arith, has_profile-Member name ps m)

  -- No profile is active, or one of those configured.
  abbrev pub IsKnown : List (Profile N) → Option Text → Type 0
  IsKnown ps none = Unit
  IsKnown ps (some name) = has_profile ps name ≡ true

  length-names : (ps : List (Profile N)) → length (names ps) ≡ length (map (λ p. p.name) ps)
  unfolding names
  length-names ps = length-sort_by text_le (map (λ p. p.name) ps)

  names-has_profile :
      (name : Text) (ps : List (Profile N)) → Member name (names ps) → has_profile ps name ≡ true
  unfolding names
  names-has_profile name ps m =
      has_profile-Member name ps ((sort_by-Member text_le name (map (λ p. p.name) ps)).0 m)

  next_profile-IsKnown :
      (p : Profile N) (ps : List (Profile N)) (active : Option Text)
      → (next : Text) × (next_profile (names (p ∷ ps)) active ≡ some next)
        × (has_profile (p ∷ ps) next ≡ true)
  unfolding next_profile
  next_profile-IsKnown p ps none =
      let some_name : 0 < length (names (p ∷ ps)) = omega (arith, length-names (p ∷ ps)) in
      let (next, found, here) = get_elem?-Member (names (p ∷ ps)) 0 some_name in
      (next, found, names-has_profile next (p ∷ ps) here)
  next_profile-IsKnown p ps (some current) =
      let some_name : 0 < length (names (p ∷ ps)) = omega (arith, length-names (p ∷ ps)) in
      let (next, found, here) =
        next_in-Member (λ n. text_eq n current) (names (p ∷ ps)) some_name in
      (next, found, names-has_profile next (p ∷ ps) here)

  -- What an action may change.
  pub record IsAction (e e' : ContextEngine N) : Type 0 where
    pub rest : record e' { active_profile = e.active_profile } ≡ e
    pub known : IsKnown e.profiles e.active_profile → IsKnown e.profiles e'.active_profile

  cycle-IsAction :
      (e : ContextEngine N) (ps : List (Profile N))
      → e.profiles ≡ ps
      → (e' : ContextEngine N) × (cycle e ≡ some e') × IsAction e e'
  unfolding cycle
  cycle-IsAction e [] h = (e, simp (h, cycle) refl, record { rest = refl; known = λ k. k })
  cycle-IsAction e (p ∷ ps) h =
      let (next, found, here) = next_profile-IsKnown p ps e.active_profile in
      (
        record e { active_profile = some next },
        simp (h, found, cycle) refl,
        record { rest = refl; known = λ k. rw h here },
      )

  activate-IsAction : (e : ContextEngine N) (name : Option Text) → IsAction e (activate e name)
  unfolding activate
  activate-IsAction e none = record { rest = refl; known = λ k. k }
  activate-IsAction e (some target) = elim (Bool-cases (has_profile e.profiles target)) [
    | inl h ↦ rw h (record { rest = refl; known = λ k. h })
    | inr h ↦ rw h (record { rest = refl; known = λ k. k })
  ]

  deactivate-IsAction : (e : ContextEngine N) (name : Option Text) → IsAction e (deactivate e name)
  unfolding deactivate
  deactivate-IsAction e none = record { rest = refl; known = λ k. tt }
  deactivate-IsAction e (some target) = elim (Bool-cases (is_active e.active_profile target)) [
    | inl h ↦ rw h (record { rest = refl; known = λ k. tt })
    | inr h ↦ rw h (record { rest = refl; known = λ k. k })
  ]

  pub apply_profile_action-IsAction :
      (e : ContextEngine N) (action : Text) (name : Option Text)
      → (e' : ContextEngine N) × (apply_profile_action e action name ≡ some e') × IsAction e e'
  unfolding apply_profile_action
  apply_profile_action-IsAction e action name =
      elim (Bool-cases (text_eq action (bytes "activate"))) [
        | inl a ↦ (activate e name, rw a refl, activate-IsAction e name)
        | inr a ↦ elim (Bool-cases (text_eq action (bytes "deactivate"))) [
          | inl d ↦ (deactivate e name, rw (a, d) refl, deactivate-IsAction e name)
          | inr d ↦ elim (Bool-cases (text_eq action (bytes "cycle"))) [
            | inl c ↦
                let (e', ran, act) = cycle-IsAction e e.profiles refl in (e', rw (a, d, c) ran, act)
            | inr c ↦ (e, rw (a, d, c) refl, record { rest = refl; known = λ k. k })
          ]
        ]
      ]

  -- With an active profile that is configured, or none, no action panics; it changes nothing but the
  -- active profile, which is again one of those configured, or none.
  pub apply_profile_action-keeps :
      (e : ContextEngine N) (action : Text) (name : Option Text)
      → IsKnown e.profiles e.active_profile
      → (e' : ContextEngine N) × (apply_profile_action e action name ≡ some e')
        × (record e' { active_profile = e.active_profile } ≡ e)
        × IsKnown e.profiles e'.active_profile
  apply_profile_action-keeps e action name k =
      let (e', ran, act) = apply_profile_action-IsAction e action name in
      (e', ran, act.rest, act.known k)
