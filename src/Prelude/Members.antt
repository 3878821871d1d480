-- ===== src/Prelude/Members.antt =====
-- Who is a member of the lists that the program makes.
use mathlib.Core.Path.{◌≡◌, refl, ◌∙◌, ap, sym}
use mathlib.Core.Logic.{◌⊎◌, ◌↔◌, inl, inr}
use mathlib.Core.Bool.{Bool, true, false}
use mathlib.Core.List.{List, [], ◌∷◌, ◌++◌, map}
use levshell.Prelude.Tests.{Bool-cases}
use levshell.Prelude.Lists.{Member, filter_by, any_of}

module _ {A : Type 0} where
  pub filter_by-Member :
      (p : A → Bool) (a : A) (xs : List A)
      → Member a (filter_by p xs) ↔ (Member a xs × (p a ≡ true))
  unfolding filter_by
  filter_by-Member p a [] = (λ m. absurd m, λ m. absurd m.0)
  filter_by-Member p a (x ∷ xs) = elim (Bool-cases (p x)) [
    | inl e ↦ rw e (
      λ m. elim m [
        | inl h ↦ (inl h, ap p (sym h) ∙ e)
        | inr h ↦ let (m', ok) = (filter_by-Member p a xs).0 h in (inr m', ok)
      ],
      λ m. elim m.0 [ inl h ↦ inl h | inr h ↦ inr ((filter_by-Member p a xs).1 (h, m.1)) ],
    )
    | inr e ↦ rw e (
      λ m. let (m', ok) = (filter_by-Member p a xs).0 m in (inr m', ok),
      λ m. elim m.0 [
        | inl h ↦ absurd (let bad : true ≡ false = sym m.1 ∙ ap p (sym h) ∙ e in cc)
        | inr h ↦ (filter_by-Member p a xs).1 (h, m.1)
      ],
    )
  ]

  pub append-Member : (a : A) (xs ys : List A) → Member a (xs ++ ys) ↔ (Member a xs ⊎ Member a ys)
  append-Member a [] ys = (λ m. inr m, λ m. elim m [ inl h ↦ absurd h | inr h ↦ h ])
  append-Member a (x ∷ xs) ys = (
    λ m. elim m [
      | inl h ↦ inl (inl h)
      | inr h ↦ elim ((append-Member a xs ys).0 h) [ inl t ↦ inl (inr t) | inr t ↦ inr t ]
    ],
    λ m. elim m [
      | inl (inl h) ↦ inl h
      | inl (inr h) ↦ inr ((append-Member a xs ys).1 (inl h))
      | inr h ↦ inr ((append-Member a xs ys).1 (inr h))
    ],
  )

  pub any_of-Member :
      (p : A → Bool) (xs : List A) → (any_of p xs ≡ true) ↔ ((a : A) × Member a xs × (p a ≡ true))
  unfolding any_of
  any_of-Member p [] = (λ h. absurd (let bad : false ≡ true = h in cc), λ (a, m, e). absurd m)
  any_of-Member p (x ∷ xs) = elim (Bool-cases (p x)) [
    | inl e ↦ rw e (λ h. (x, inl refl, e), λ h. refl)
    | inr e ↦ rw e (
      λ h. let (a, m, ok) = (any_of-Member p xs).0 h in (a, inr m, ok),
      λ (a, m, ok). elim m [
        | inl h ↦ absurd (let bad : true ≡ false = sym ok ∙ ap p (sym h) ∙ e in cc)
        | inr h ↦ (any_of-Member p xs).1 (a, h, ok)
      ],
    )
  ]

module _ {A B : Type 0} where
  pub map-Member :
      (f : A → B) (b : B) (xs : List A) → Member b (map f xs) ↔ ((a : A) × Member a xs × (f a ≡ b))
  map-Member f b [] = (λ m. absurd m, λ (a, m, e). absurd m)
  map-Member f b (x ∷ xs) = (
    λ m. elim m [
      | inl h ↦ (x, inl refl, h)
      | inr h ↦ let (a, m', e) = (map-Member f b xs).0 h in (a, inr m', e)
    ],
    λ (a, m, e). elim m [
      | inl h ↦ inl (ap f h ∙ e)
      | inr h ↦ inr ((map-Member f b xs).1 (a, h, e))
    ],
  )
