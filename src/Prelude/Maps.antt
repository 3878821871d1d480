-- ===== src/Prelude/Maps.antt =====
-- `HashMap<String, V>` as an association list. A loop over the map takes the entries in the
-- list's order, which may be any.
use mathlib.Core.Path.{◌≡◌, refl}
use mathlib.Core.Bool.{false}
use mathlib.Core.Option.{Option, none, some}
use mathlib.Core.List.{List, [], ◌∷◌}
use native.Mathlib.Omega.{arith}
use mathlib.Core.Logic.{inl, inr}
use mathlib.Core.Bool.{true, false}
use mathlib.Core.Path.{subst}
use levshell.Prelude.Tests.{if◌then◌else◌, Bool-cases}
use levshell.Prelude.Texts.{Text, text_eq, text_eq_iff}

abbrev pub Assoc {ℓ} : Type ℓ → Type ℓ
Assoc V = List (Text × V)

text_eq-sym : (j k : Text) → text_eq j k ≡ false → text_eq k j ≡ false
text_eq-sym j k h = ground (arith, text_eq_iff j k, text_eq_iff k j)

module _ {ℓ} {V : Type ℓ} where
  unfoldable pub lookup : Text → Assoc V → Option V
  lookup k [] = none
  lookup k ((j, v) ∷ m) = if text_eq j k then some v else lookup k m

  unfoldable pub insert : Text → V → Assoc V → Assoc V
  insert k v [] = (k, v) ∷ []
  insert k v ((j, w) ∷ m) = if text_eq j k then (k, v) ∷ m else (j, w) ∷ insert k v m

  unfoldable pub remove : Text → Assoc V → Assoc V
  remove k [] = []
  remove k ((j, w) ∷ m) = if text_eq j k then remove k m else (j, w) ∷ remove k m

  pub lookup-insert :
      (k j : Text) (v : V) (m : Assoc V)
      → lookup j (insert k v m) ≡ (if text_eq k j then some v else lookup j m)
  unfolding lookup insert
  lookup-insert k j v [] = refl
  lookup-insert k j v ((i, w) ∷ m) =
      ground (arith, text_eq_iff k j, text_eq_iff i k, text_eq_iff i j, lookup-insert k j v m)

  pub lookup-insert_same :
      (k j : Text) (v : V) (m : Assoc V) → text_eq k j ≡ true → lookup j (insert k v m) ≡ some v
  lookup-insert_same k j v m e = rw (lookup-insert k j v m, e) refl

  pub lookup-insert_other :
      (k j : Text) (v : V) (m : Assoc V)
      → text_eq k j ≡ false
      → lookup j (insert k v m) ≡ lookup j m
  lookup-insert_other k j v m e = rw (lookup-insert k j v m, e) refl

  pub lookup-remove :
      (k j : Text) (m : Assoc V)
      → lookup j (remove k m) ≡ (if text_eq k j then none else lookup j m)
  unfolding lookup remove
  lookup-remove k j [] = ground arith
  lookup-remove k j ((i, w) ∷ m) =
      ground (arith, text_eq_iff k j, text_eq_iff i k, text_eq_iff i j, lookup-remove k j m)

  -- The keys are distinct, as in a hash map.
  abbrev pub Fresh : Text → Assoc V → Type 0
  Fresh k [] = Unit
  Fresh k ((j, v) ∷ m) = (text_eq j k ≡ false) × Fresh k m

  abbrev pub IsMap : Assoc V → Type 0
  IsMap [] = Unit
  IsMap ((k, v) ∷ m) = Fresh k m × IsMap m

  Fresh-insert :
      (k j : Text) (v : V) (m : Assoc V) → text_eq j k ≡ false → Fresh k m → Fresh k (insert j v m)
  unfolding insert
  Fresh-insert k j v [] ne f = (ne, tt)
  Fresh-insert k j v ((i, w) ∷ m) ne f = ground (arith, Fresh-insert k j v m ne f.1)

  Fresh-remove : (k j : Text) (m : Assoc V) → Fresh k m → Fresh k (remove j m)
  unfolding remove
  Fresh-remove k j [] f = tt
  Fresh-remove k j ((i, w) ∷ m) f = ground (arith, Fresh-remove k j m f.1)

  Fresh-subst : (k j : Text) (m : Assoc V) → text_eq k j ≡ true → Fresh k m → Fresh j m
  Fresh-subst k j m e f = subst (λ x. Fresh x m) ((text_eq_iff k j).0 e) f

  -- A hash map stays one.
  pub insert-IsMap : (k : Text) (v : V) (m : Assoc V) → IsMap m → IsMap (insert k v m)
  unfolding insert
  insert-IsMap k v [] i = (tt, tt)
  insert-IsMap k v ((j, w) ∷ m) i = elim (Bool-cases (text_eq j k)) [
    | inl e ↦ rw e (Fresh-subst j k m e i.0, i.1)
    | inr e ↦ rw e (Fresh-insert j k v m (text_eq-sym j k e) i.0, insert-IsMap k v m i.1)
  ]

  pub remove-IsMap : (k : Text) (m : Assoc V) → IsMap m → IsMap (remove k m)
  unfolding remove
  remove-IsMap k [] i = tt
  remove-IsMap k ((j, w) ∷ m) i = elim (Bool-cases (text_eq j k)) [
    | inl e ↦ rw e (remove-IsMap k m i.1)
    | inr e ↦ rw e (Fresh-remove j k m i.0, remove-IsMap k m i.1)
  ]

  pub Fresh-lookup : (k j : Text) (m : Assoc V) → Fresh k m → text_eq k j ≡ true → lookup j m ≡ none
  unfolding lookup
  Fresh-lookup k j [] f e = refl
  Fresh-lookup k j ((i, v) ∷ m) f e =
      ground (arith, text_eq_iff k j, text_eq_iff i j, text_eq_iff i k, Fresh-lookup k j m f.1 e)
