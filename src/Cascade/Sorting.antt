-- ===== src/Cascade/Sorting.antt =====
-- What the sort of crates/levshell-context/src/cascade.rs and of others keeps.
use levshell.Prelude.{
  suc, ◌≡◌, refl, ◌∙◌, ap, ◌⊎◌, ◌↔◌, inl, inr, Member, Bool, List, [], ◌∷◌, length, arith,
  Bool-cases,
}
use levshell.Cascade.{sort_by, sort_insert}

module _ {A : Type 0} (before : A → A → Bool) where
  -- A member that stands one place further on.
  swap_front : {X Y M M' : Type 0} → (M ↔ (X ⊎ M')) → (Y ⊎ M) ↔ (X ⊎ (Y ⊎ M'))
  swap_front (to, from) = (
    λ m. elim m [
      | inl y ↦ inr (inl y)
      | inr h ↦ elim (to h) [ inl x ↦ inl x | inr h' ↦ inr (inr h') ]
    ],
    λ m. elim m [
      | inl x ↦ inr (from (inl x))
      | inr (inl y) ↦ inl y
      | inr (inr h') ↦ inr (from (inr h'))
    ],
  )

  sort_insert-Member :
      (a x : A) (ys : List A) → Member a (sort_insert before x ys) ↔ ((x ≡ a) ⊎ Member a ys)
  unfolding sort_insert
  sort_insert-Member a x [] = (λ m. m, λ m. m)
  sort_insert-Member a x (y ∷ ys) = elim (Bool-cases (before x y)) [
    | inl e ↦ rw e (λ m. m, λ m. m)
    | inr e ↦ rw e (swap_front (sort_insert-Member a x ys))
  ]

  pub sort_by-Member : (a : A) (xs : List A) → Member a (sort_by before xs) ↔ Member a xs
  unfolding sort_by
  sort_by-Member a [] = (λ m. m, λ m. m)
  sort_by-Member a (x ∷ xs) =
      let (to, from) = sort_insert-Member a x (sort_by before xs) in
      let (down, up) = sort_by-Member a xs in
      (
        λ m. elim (to m) [ inl h ↦ inl h | inr h ↦ inr (down h) ],
        λ m. from (elim m [ inl h ↦ inl h | inr h ↦ inr (up h) ]),
      )

  length-sort_insert : (x : A) (ys : List A) → length (sort_insert before x ys) ≡ suc (length ys)
  unfolding sort_insert
  length-sort_insert x [] = refl
  length-sort_insert x (y ∷ ys) = ground (arith, length-sort_insert x ys)

  pub length-sort_by : (xs : List A) → length (sort_by before xs) ≡ length xs
  unfolding sort_by
  length-sort_by [] = refl
  length-sort_by (x ∷ xs) = length-sort_insert x (sort_by before xs) ∙ ap suc (length-sort_by xs)
