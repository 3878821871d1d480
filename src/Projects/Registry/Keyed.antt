-- ===== src/Projects/Registry/Keyed.antt =====
-- The keys of the index of crates/levshell-projects/src/registry.rs.
use levshell.Prelude.{
  ℕ, ◌≡◌, refl, ◌∙◌, ap, sym, inl, inr, Text, All, true, false, ◌==◌, ==_iff, Option, none, some,
  [], ◌∷◌, Bool-cases,
}
use levshell.Projects.{Uuid, ProjectRuntime, ProjectEntry}
use levshell.Projects.Registry.{
  FocusTick, Index, ProjectRegistry, owns, find_id, put, on_runtime, find_owner, stop_runtime, stop,
  start_runtime, start, handle_workspace_change,
}

module _ {T : Type 0} where
  -- Each entry stands under the id of its project.
  abbrev pub IsKeyed : Index T → Type 0
  IsKeyed es = All (λ x. x.1.project.id ≡ x.0) es

  pub find_owner-find_id :
      (w : Text) (es : Index T) (e : ProjectEntry T)
      → All (λ x. x.1.project.id ≡ x.0) es
      → find_owner w es ≡ some e
      → (d : ProjectEntry T) × (find_id e.project.id es ≡ some d)
  unfolding find_owner find_id
  find_owner-find_id w [] e keyed h = cc
  find_owner-find_id w ((key, d) ∷ es) e (id, keyed) h = elim (Bool-cases (key == e.project.id)) [
    | inl same ↦ (d, rw same refl)
    | inr other ↦ elim (Bool-cases (owns d.metadata w)) [
      | inl mine ↦ absurd (
          let it : some d ≡ some e = rw mine at h in
          let eq : key ≡ e.project.id =
            sym id ∙ ap (λ x. x.project.id) (let one : d ≡ e = cc in one) in
          let bad : true ≡ false = sym ((==_iff key e.project.id).1 eq) ∙ other in cc)
      | inr not_mine ↦
          let (d', found) = find_owner-find_id w es e keyed (rw not_mine at h) in
          (d', rw other found)
    ]
  ]

  on_runtime-IsKeyed :
      (id : Uuid) (f : ProjectRuntime T → ProjectRuntime T) (es : Index T)
      → IsKeyed es
      → IsKeyed (on_runtime id f es)
  unfolding on_runtime
  on_runtime-IsKeyed id f [] k = tt
  on_runtime-IsKeyed id f ((key, e) ∷ es) (same, k) =
      let rest = on_runtime-IsKeyed id f es k in
      elim (Bool-cases (key == id)) [
        | inl h ↦ rw (h, on_runtime) (same, k)
        | inr h ↦ rw (h, on_runtime) (same, rest)
      ]

  pub put-IsKeyed :
      (id : Uuid) (e : ProjectEntry T) (es : Index T)
      → e.project.id ≡ id
      → IsKeyed es
      → IsKeyed (put id e es)
  unfolding put
  put-IsKeyed id e [] h k = (h, tt)
  put-IsKeyed id e ((key, d) ∷ es) h (same, k) =
      let rest = put-IsKeyed id e es h k in
      elim (Bool-cases (key == id)) [
        | inl c ↦ rw (c, put) (h, k)
        | inr c ↦ rw (c, put) (same, rest)
      ]

  pub handle_workspace_change-IsKeyed :
      (r : ProjectRegistry T) (workspace : Text) (now : ℕ) (utc : T) (since : ℕ)
      → IsKeyed r.by_id
      → IsKeyed (handle_workspace_change r workspace now utc since).by_id
  unfolding handle_workspace_change stop start
  handle_workspace_change-IsKeyed r workspace now utc since k =
      after_start (find_owner workspace r.by_id) (stop r.by_id r.focus now) (after_stop r.focus)
    where
      after_stop : (focus : Option FocusTick) → IsKeyed (stop r.by_id focus now)
      after_stop none = k
      after_stop (some t) = on_runtime-IsKeyed t.project_id (stop_runtime t now) r.by_id k

      after_start :
          (owner : Option (ProjectEntry T)) (es : Index T)
          → IsKeyed es
          → IsKeyed (start (record r { by_id = es; focus = none }) owner workspace utc since).by_id
      after_start none es k1 = k1
      after_start (some o) es k1 =
          on_runtime-IsKeyed o.project.id (start_runtime workspace utc) es k1
