-- ===== src/Projects/Registry/Tracked.antt =====
-- The active workspaces and the stopwatch of crates/levshell-projects/src/registry.rs.
use levshell.Prelude.{
  ℕ, ◌≡◌, refl, ◌∙◌, ap, sym, subst, inl, inr, Text, text_eq_refl, All, ◌==◌, ==_iff, Option, none,
  some, List, [], ◌∷◌, filter_by, any_of, if◌then◌else◌, Bool-cases,
}
use levshell.Projects.{Uuid, Project, ProjectMetadata, ProjectRuntime, ProjectEntry}
use levshell.Projects.Registry.{
  FocusTick, Index, ProjectRegistry, set_insert, set_remove, empty, find_id, runtime_of, register,
  find_owner, handle_workspace_change,
}
use levshell.Projects.Registry.Index.{
  on_entry, id_of, stopped, started, tick_of, find_id-put, find_id-handle_workspace_change,
  focus-handle_workspace_change,
}
use levshell.Projects.Registry.Keyed.{
  IsKeyed, find_owner-find_id, put-IsKeyed, handle_workspace_change-IsKeyed,
}

-- What the stopwatch says of the workspaces of a project.
abbrev pub active_of : Option FocusTick → Uuid → List Text
active_of none j = []
active_of (some t) j = if t.project_id == j then t.workspace ∷ [] else []

set_remove_self : (w : Text) → set_remove w (w ∷ []) ≡ []
unfolding filter_by
set_remove_self w = rw (text_eq_refl w) refl

set_insert-nil : (w : Text) → set_insert w [] ≡ w ∷ []
unfolding any_of
set_insert-nil w = refl

-- A hot reload of a project file, or a change of the workspace in focus.
pub data Call (T : Type 0) : Type 0 where
  reload : Project T → ProjectMetadata → Call T
  focus_on : (workspace : Text) → (now : ℕ) → (utc : T) → (since : ℕ) → Call T

module _ {T : Type 0} where
  -- Each entry stands under the id of its project, the project of the stopwatch is listed, and a
  -- project's active workspaces are the one that the stopwatch runs for, or none.
  pub record IsTracked (r : ProjectRegistry T) : Type 0 where
    pub known :
        (t : FocusTick)
        → r.focus ≡ some t
        → (e : ProjectEntry T) × (find_id t.project_id r.by_id ≡ some e)
    pub active :
        (j : Uuid) (e : ProjectEntry T)
        → find_id j r.by_id ≡ some e
        → e.runtime.currently_active_workspaces ≡ active_of r.focus j
    pub listed : All (λ x. x.1.project.id ≡ x.0) r.by_id

  empty-IsTracked : IsTracked empty
  unfolding empty find_id
  empty-IsTracked = record { known = λ t h. cc; active = λ j e h. cc; listed = tt }

  stopped-active :
      (focus : Option FocusTick) (j : Uuid) (now : ℕ) (rt : ProjectRuntime T)
      → rt.currently_active_workspaces ≡ active_of focus j
      → (stopped focus j now rt).currently_active_workspaces ≡ []
  stopped-active none j now rt h = h
  stopped-active (some t) j now rt h = elim (Bool-cases (t.project_id == j)) [
    | inl e ↦ rw e (ap (set_remove t.workspace) (h ∙ rw e refl) ∙ set_remove_self t.workspace)
    | inr e ↦ rw e (h ∙ rw e refl)
  ]

  started-active :
      (id : Option Uuid) (j : Uuid) (workspace : Text) (utc : T) (since : ℕ) (rt : ProjectRuntime T)
      → rt.currently_active_workspaces ≡ []
      → (started id j workspace utc rt).currently_active_workspaces
        ≡ active_of (tick_of id workspace since) j
  started-active none j workspace utc since rt h = h
  started-active (some id) j workspace utc since rt h = elim (Bool-cases (id == j)) [
    | inl e ↦ rw e (ap (set_insert workspace) h ∙ set_insert-nil workspace)
    | inr e ↦ rw e h
  ]

  on_entry-some :
      (f : ProjectRuntime T → ProjectRuntime T) (o : Option (ProjectEntry T)) (e' : ProjectEntry T)
      → on_entry f o ≡ some e'
      → (e : ProjectEntry T) × (o ≡ some e) × (record e { runtime = f e.runtime } ≡ e')
  on_entry-some f none e' h = cc
  on_entry-some f (some e) e' h = (e, refl, cc)

  known_owner :
      (es : Index T) (w : Text) (since : ℕ) (owner : Option (ProjectEntry T)) (t : FocusTick)
      → IsKeyed es
      → find_owner w es ≡ owner
      → tick_of (id_of owner) w since ≡ some t
      → (e : ProjectEntry T) × (find_id t.project_id es ≡ some e)
  known_owner es w since none t k h ticks = cc
  known_owner es w since (some o) t k h ticks =
      let (d, found) = find_owner-find_id w es o k h in
      let tick : record { project_id = o.project.id; workspace = w; since = since } ≡ t = cc in
      (d, subst (λ x. find_id x.project_id es ≡ some d) tick found)

  pub handle_workspace_change-IsTracked :
      (r : ProjectRegistry T) (workspace : Text) (now : ℕ) (utc : T) (since : ℕ)
      → IsTracked r
      → IsTracked (handle_workspace_change r workspace now utc since)
  handle_workspace_change-IsTracked r workspace now utc since s =
      let owner = find_owner workspace r.by_id in
      let focus1 = focus-handle_workspace_change r workspace now utc since in
      record {
        known = λ t h.
            let (e, found) =
              known_owner r.by_id workspace since owner t s.listed refl (sym focus1 ∙ h) in
            (
              _,
              find_id-handle_workspace_change t.project_id r workspace now utc since
                  ∙ ap (on_entry _) found,
            );
        active = λ j e' h.
            let (e, found, same) =
              on_entry-some _ (find_id j r.by_id) e'
                (sym (find_id-handle_workspace_change j r workspace now utc since) ∙ h) in
            ap (λ x. x.runtime.currently_active_workspaces) (sym same)
            ∙ started-active (id_of owner) j workspace utc since (stopped r.focus j now e.runtime)
                (stopped-active r.focus j now e.runtime (s.active j e found))
            ∙ ap (λ f. active_of f j) (sym focus1);
        listed = handle_workspace_change-IsKeyed r workspace now utc since s.listed;
      }

  -- An upsert keeps the runtime state of the project that it replaces.
  register-active :
      (r : ProjectRegistry T) (id : Uuid)
      → IsTracked r
      → (runtime_of (find_id id r.by_id)).currently_active_workspaces ≡ active_of r.focus id
  register-active r id s = go (find_id id r.by_id) refl r.focus refl
    where
      go :
          (o : Option (ProjectEntry T))
          → find_id id r.by_id ≡ o
          → (focus : Option FocusTick) → r.focus ≡ focus
          → (runtime_of o).currently_active_workspaces ≡ active_of focus id
      go (some e) h focus f = s.active id e h ∙ ap (λ x. active_of x id) f
      go none h none f = refl
      go none h (some t) f = elim (Bool-cases (t.project_id == id)) [
        | inl e ↦
            let (d, found) = s.known t f in
            absurd (
              let bad : none ≡ some d =
                sym h ∙ ap (λ x. find_id x r.by_id) (sym ((==_iff t.project_id id).0 e)) ∙ found in
              cc)
        | inr e ↦ rw e refl
      ]

  pub register-IsTracked :
      (r : ProjectRegistry T) (project : Project T) (metadata : ProjectMetadata)
      → IsTracked r
      → IsTracked (register r project metadata).0
  unfolding register
  register-IsTracked r project metadata s =
      let entry : ProjectEntry T = record {
        project = project;
        metadata = metadata;
        runtime = runtime_of (find_id project.id r.by_id);
      } in
      record {
        known = λ t h.
            let (e, found) = s.known t h in
            elim (Bool-cases (project.id == t.project_id)) [
              | inl c ↦ (entry, find_id-put t.project_id project.id entry r.by_id ∙ rw c refl)
              | inr c ↦ (e, find_id-put t.project_id project.id entry r.by_id ∙ rw c found)
            ];
        active = λ j e h. elim (Bool-cases (project.id == j)) [
          | inl c ↦
              let same : some entry ≡ some e =
                sym (find_id-put j project.id entry r.by_id ∙ rw c refl) ∙ h in
              let one : entry ≡ e = cc in
              ap (λ x. x.runtime.currently_active_workspaces) (sym one)
              ∙ register-active r project.id s
              ∙ ap (active_of r.focus) ((==_iff project.id j).0 c)
          | inr c ↦ s.active j e (sym (find_id-put j project.id entry r.by_id ∙ rw c refl) ∙ h)
        ];
        listed = put-IsKeyed project.id entry r.by_id refl s.listed;
      }

  unfoldable pub run_calls : ProjectRegistry T → List (Call T) → ProjectRegistry T
  run_calls r [] = r
  run_calls r (reload project metadata ∷ cs) = run_calls (register r project metadata).0 cs
  run_calls r (focus_on workspace now utc since ∷ cs) =
      run_calls (handle_workspace_change r workspace now utc since) cs

  run_calls-IsTracked_from :
      (r : ProjectRegistry T) (cs : List (Call T)) → IsTracked r → IsTracked (run_calls r cs)
  unfolding run_calls
  run_calls-IsTracked_from r [] s = s
  run_calls-IsTracked_from r (reload project metadata ∷ cs) s =
      run_calls-IsTracked_from (register r project metadata).0 cs
        (register-IsTracked r project metadata s)
  run_calls-IsTracked_from r (focus_on workspace now utc since ∷ cs) s =
      run_calls-IsTracked_from (handle_workspace_change r workspace now utc since) cs
        (handle_workspace_change-IsTracked r workspace now utc since s)

  -- After any reloads and changes of the workspace, from the empty registry: each entry stands under
  -- the id of its project, the project of the stopwatch is listed, and the active workspaces of a
  -- project are the one that the stopwatch runs for, or none.
  pub run_calls-IsTracked : (cs : List (Call T)) → IsTracked (run_calls empty cs)
  run_calls-IsTracked cs = run_calls-IsTracked_from empty cs empty-IsTracked
