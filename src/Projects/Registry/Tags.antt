-- ===== src/Projects/Registry/Tags.antt =====
-- Which project crates/levshell-projects/src/registry.rs takes for a set of tags.
use levshell.Prelude.{
  text_le_total, text_le_trans, text_le_refl, ltb, ◌&&◌, ◌||◌, ℕ, ◌≤◌, ◌<◌, ◌≡◌, refl, ◌∙◌, sym,
  subst, ◌⊎◌, inl, inr, Text, text_le, Member, All, true, false, not, ◌==◌, ==_iff, Option, none,
  some, List, [], ◌∷◌, if◌then◌else◌, arith, Bool-cases,
}
use levshell.Projects.{Uuid, ProjectEntry}
use levshell.Projects.Registry.{
  Index, ProjectRegistry, overlap, is_better, best_of, entry_of, find_by_tags,
}

better_counts :
    (n m : ℕ) (s t : Text)
    → (ltb m n || (n == m && not (text_le s t))) ≡ true
    → (m ≤ n) × (m ≡ n → text_le t s ≡ true)
better_counts n m s t h = (ground arith, λ e. text_le_total s t (ground (arith, e)))

worse_counts :
    (n m : ℕ) (s t : Text)
    → (ltb m n || (n == m && not (text_le s t))) ≡ false
    → (n ≤ m) × (n ≡ m → text_le s t ≡ true)
worse_counts n m s t h = (ground arith, λ e. ground (arith, e))

module _ {T : Type 0} (tags : List Text) where
  -- The first has more of the tags, or as many and a name that is not after the other's.
  pub record Beats (e d : ProjectEntry T) : Type 0 where
    pub as_many : overlap tags d ≤ overlap tags e
    pub name_first : overlap tags d ≡ overlap tags e → text_le e.project.name d.project.name ≡ true

  Beats-refl : (e : ProjectEntry T) → Beats e e
  Beats-refl e = record { as_many = omega arith; name_first = λ h. text_le_refl e.project.name }

  Beats-trans : (a b c : ProjectEntry T) → Beats a b → Beats b c → Beats a c
  Beats-trans a b c p q = record {
    as_many = omega (arith, p.as_many, q.as_many);
    name_first = λ h.
        text_le_trans a.project.name b.project.name c.project.name
          (p.name_first (omega (arith, p.as_many, q.as_many, h)))
          (q.name_first (omega (arith, p.as_many, q.as_many, h)));
  }

  abbrev Leads : Option (ProjectEntry T × ℕ) → ProjectEntry T → Type 0
  Leads none d = overlap tags d ≡ 0
  Leads (some (e, n)) d = (n ≡ overlap tags e) × Beats e d

  -- The better of the best so far and an entry with some of the tags.
  abbrev challenge : Option (ProjectEntry T × ℕ) → ProjectEntry T → Option (ProjectEntry T × ℕ)
  challenge none e = some (e, overlap tags e)
  challenge (some b) e =
      if is_better (e, overlap tags e) b then some (e, overlap tags e) else some b

  -- The best so far, after one entry more.
  abbrev better : Option (ProjectEntry T × ℕ) → ProjectEntry T → Option (ProjectEntry T × ℕ)
  better best e = if overlap tags e == 0 then best else challenge best e

  abbrev IsCounted : Option (ProjectEntry T × ℕ) → Type 0
  IsCounted none = Unit
  IsCounted (some (e, n)) = (n ≡ overlap tags e) × (0 < n)

  Beats-replaced :
      (e b : ProjectEntry T) → is_better (e, overlap tags e) (b, overlap tags b) ≡ true → Beats e b
  unfolding is_better
  Beats-replaced e b h =
      let (many, first) =
        better_counts (overlap tags e) (overlap tags b) b.project.name e.project.name h in
      record { as_many = many; name_first = first }

  Beats-kept :
      (e b : ProjectEntry T) → is_better (e, overlap tags e) (b, overlap tags b) ≡ false → Beats b e
  unfolding is_better
  Beats-kept e b h =
      let (many, first) =
        worse_counts (overlap tags e) (overlap tags b) b.project.name e.project.name h in
      record { as_many = many; name_first = first }

  -- What the best so far is after the entry `e`: counted, ahead of `e`, and of all that it was ahead
  -- of before; and either `e` or what it was.
  record IsNext (best best' : Option (ProjectEntry T × ℕ)) (e : ProjectEntry T) : Type 0 where
    counted : IsCounted best'
    leads : Leads best' e
    leads_still : (d : ProjectEntry T) → Leads best d → Leads best' d
    origin : (best' ≡ best) ⊎ (best' ≡ some (e, overlap tags e))

  kept-IsNext :
      (best : Option (ProjectEntry T × ℕ)) (e : ProjectEntry T)
      → IsCounted best
      → Leads best e
      → IsNext best best e
  kept-IsNext best e c l = record {
    counted = c;
    leads = l;
    leads_still = λ d m. m;
    origin = inl refl;
  }

  empty_overlap-Leads :
      (best : Option (ProjectEntry T × ℕ)) (e : ProjectEntry T)
      → IsCounted best
      → overlap tags e ≡ 0
      → Leads best e
  empty_overlap-Leads none e c h = h
  empty_overlap-Leads (some (b, n)) e (same, pos) h = (
    same,
    record {
      as_many = omega (arith, h);
      name_first = λ k. absurd (omega (arith, same, pos, h, k));
    },
  )

  taken-IsNext :
      (best : Option (ProjectEntry T × ℕ)) (e : ProjectEntry T)
      → 0 < overlap tags e
      → ((d : ProjectEntry T) → Leads best d → Beats e d)
      → IsNext best (some (e, overlap tags e)) e
  taken-IsNext best e pos ahead = record {
    counted = (refl, pos);
    leads = (refl, Beats-refl e);
    leads_still = λ d m. (refl, ahead d m);
    origin = inr refl;
  }

  challenge-IsNext :
      (best : Option (ProjectEntry T × ℕ)) (e : ProjectEntry T)
      → IsCounted best
      → 0 < overlap tags e
      → IsNext best (challenge best e) e
  challenge-IsNext none e c pos = taken-IsNext none e pos (λ d m. record {
    as_many = omega (arith, m);
    name_first = λ k. absurd (omega (arith, m, k, pos));
  })
  challenge-IsNext (some (x, n)) e (same, few) pos =
      let counts : n ≡ overlap tags x = same in
      elim (Bool-cases (is_better (e, overlap tags e) (x, n))) [
        | inl h ↦ rw h (
            taken-IsNext (some (x, n)) e pos (λ d m.
              Beats-trans e x d
                (Beats-replaced e x
                  (subst (λ k. is_better (e, overlap tags e) (x, k) ≡ true) counts h))
                m.1))
        | inr h ↦ rw h (
            kept-IsNext (some (x, n)) e (same, few)
              (
                same,
                Beats-kept e x (subst (λ k. is_better (e, overlap tags e) (x, k) ≡ false) counts h),
              ))
      ]

  better-IsNext :
      (best : Option (ProjectEntry T × ℕ)) (e : ProjectEntry T)
      → IsCounted best
      → IsNext best (better best e) e
  better-IsNext best e c = elim (Bool-cases (overlap tags e == 0)) [
    | inl h ↦ rw h (kept-IsNext best e c (empty_overlap-Leads best e c ((==_iff _ _).0 h)))
    | inr h ↦ rw h (challenge-IsNext best e c (ground arith))
  ]

  best_of-cons :
      (best : Option (ProjectEntry T × ℕ)) (key : Uuid) (e : ProjectEntry T) (es : Index T)
      → best_of tags best ((key, e) ∷ es) ≡ best_of tags (better best e) es
  unfolding best_of
  best_of-cons none key e es = refl
  best_of-cons (some b) key e es = refl

  -- What the loop over the entries `es` leaves.
  record IsBest (best best' : Option (ProjectEntry T × ℕ)) (es : Index T) : Type 0 where
    counted : IsCounted best'
    leads : All (λ x. Leads best' x.1) es
    leads_still : (d : ProjectEntry T) → Leads best d → Leads best' d
    origin :
        (best' ≡ best)
        ⊎ ((e : Uuid × ProjectEntry T) × Member e es × (best' ≡ some (e.1, overlap tags e.1)))

  best_of-IsBest :
      (best : Option (ProjectEntry T × ℕ)) (es : Index T)
      → IsCounted best
      → IsBest best (best_of tags best es) es
  unfolding best_of
  best_of-IsBest best [] c = record {
    counted = c;
    leads = tt;
    leads_still = λ d m. m;
    origin = inl refl;
  }
  best_of-IsBest best ((key, e) ∷ es) c =
      let n = better-IsNext best e c in
      let b = best_of-IsBest (better best e) es n.counted in
      subst (λ x. IsBest best x ((key, e) ∷ es)) (sym (best_of-cons best key e es))
        (record {
          counted = b.counted;
          leads = (b.leads_still e n.leads, b.leads);
          leads_still = λ d m. b.leads_still d (n.leads_still d m);
          origin = elim b.origin [
            | inl same ↦ elim n.origin [
              | inl kept ↦ inl (same ∙ kept)
              | inr taken ↦ inr ((key, e), inl refl, same ∙ taken)
            ]
            | inr (x, m, it) ↦ inr (x, inr m, it)
          ];
        })

  -- The entry that stands first by the number of common tags, then by name; or none has a common tag.
  abbrev pub IsTagged : Option (ProjectEntry T) → Index T → Type 0
  IsTagged none es = All (λ x. overlap tags x.1 ≡ 0) es
  IsTagged (some e) es =
      (0 < overlap tags e) × ((key : Uuid) × Member (key, e) es) × All (λ x. Beats e x.1) es

  Leads-Beats :
      (e : ProjectEntry T) (n : ℕ) (es : Index T)
      → All (λ x. Leads (some (e, n)) x.1) es
      → All (λ x. Beats e x.1) es
  Leads-Beats e n [] h = tt
  Leads-Beats e n (x ∷ es) (first, h) = (first.1, Leads-Beats e n es h)

  found-IsTagged :
      (best : Option (ProjectEntry T × ℕ)) (es : Index T)
      → IsBest none best es
      → IsTagged (entry_of best) es
  found-IsTagged none es b = b.leads
  found-IsTagged (some (e, n)) es b =
      let (same, pos) = b.counted in
      elim b.origin [
        | inl bad ↦ absurd (let none_is : some (e, n) ≡ none = bad in cc)
        | inr ((key, d), m, it) ↦
            let one : e ≡ d = cc in
            (
              omega (arith, same, pos),
              (key, subst (λ x. Member (key, x) es) (sym one) m),
              Leads-Beats e n es b.leads,
            )
      ]

  -- The project found has some of the tags and is listed; no other has more of them, and of those
  -- that have as many its name comes first. If none is found, no project has any of the tags.
  pub find_by_tags-IsTagged : (r : ProjectRegistry T) → IsTagged (find_by_tags r tags) r.by_id
  unfolding find_by_tags
  find_by_tags-IsTagged r =
      found-IsTagged (best_of tags none r.by_id) r.by_id (best_of-IsBest none r.by_id tt)
