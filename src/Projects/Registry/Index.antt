-- ===== src/Projects/Registry/Index.antt =====
-- The index of crates/levshell-projects/src/registry.rs after each operation.
use levshell.Prelude.{
  ℕ, ◌≡◌, refl, ◌∙◌, ap, Text, ◌==◌, ==_iff, Option, none, some, [], ◌∷◌, if◌then◌else◌, arith,
}
use levshell.Projects.{Uuid, ProjectRuntime, ProjectEntry}
use levshell.Projects.Registry.{
  FocusTick, Index, ProjectRegistry, find_id, put, on_runtime, find_owner, stop_runtime, stop,
  start_runtime, start, handle_workspace_change,
}

-- The stopwatch after a change of the workspace.
abbrev pub tick_of : Option Uuid → Text → ℕ → Option FocusTick
tick_of none workspace since = none
tick_of (some id) workspace since =
    some (record { project_id = id; workspace = workspace; since = since })

module _ {T : Type 0} where
  -- A change of the runtime state, where there is an entry.
  abbrev pub on_entry :
      (ProjectRuntime T → ProjectRuntime T) → Option (ProjectEntry T) → Option (ProjectEntry T)
  on_entry f none = none
  on_entry f (some e) = some (record e { runtime = f e.runtime })

  -- The id of the project that owns the workspace.
  abbrev pub id_of : Option (ProjectEntry T) → Option Uuid
  id_of none = none
  id_of (some e) = some e.project.id

  abbrev pub stopped : Option FocusTick → Uuid → ℕ → ProjectRuntime T → ProjectRuntime T
  stopped none j now rt = rt
  stopped (some t) j now rt = if t.project_id == j then stop_runtime t now rt else rt

  abbrev pub started : Option Uuid → Uuid → Text → T → ProjectRuntime T → ProjectRuntime T
  started none j workspace utc rt = rt
  started (some id) j workspace utc rt = if id == j then start_runtime workspace utc rt else rt

  find_id-on_runtime :
      (j id : Uuid) (f : ProjectRuntime T → ProjectRuntime T) (es : Index T)
      → find_id j (on_runtime id f es)
        ≡ (if id == j then on_entry f (find_id j es) else find_id j es)
  unfolding find_id on_runtime
  find_id-on_runtime j id f [] = ground arith
  find_id-on_runtime j id f ((key, e) ∷ es) =
      ground (arith, find_id-on_runtime j id f es, ==_iff key id, ==_iff key j, ==_iff id j)

  pub find_id-put :
      (j id : Uuid) (e : ProjectEntry T) (es : Index T)
      → find_id j (put id e es) ≡ (if id == j then some e else find_id j es)
  unfolding find_id put
  find_id-put j id e [] = refl
  find_id-put j id e ((key, d) ∷ es) =
      ground (arith, find_id-put j id e es, ==_iff key id, ==_iff key j, ==_iff id j)

  pub find_owner-on_runtime :
      (workspace : Text) (id : Uuid) (f : ProjectRuntime T → ProjectRuntime T) (es : Index T)
      → id_of (find_owner workspace (on_runtime id f es)) ≡ id_of (find_owner workspace es)
  unfolding find_owner on_runtime
  find_owner-on_runtime workspace id f [] = refl
  find_owner-on_runtime workspace id f ((key, e) ∷ es) =
      ground (arith, find_owner-on_runtime workspace id f es)

  find_id-stop :
      (j : Uuid) (es : Index T) (focus : Option FocusTick) (now : ℕ)
      → find_id j (stop es focus now) ≡ on_entry (stopped focus j now) (find_id j es)
  unfolding stop
  find_id-stop j es none now = ground arith
  find_id-stop j es (some t) now =
      ground (arith, find_id-on_runtime j t.project_id (stop_runtime t now) es)

  find_id-start :
      (j : Uuid) (r : ProjectRegistry T) (owner : Option (ProjectEntry T)) (workspace : Text)
      (utc : T) (since : ℕ)
      → find_id j (start r owner workspace utc since).by_id
        ≡ on_entry (started (id_of owner) j workspace utc) (find_id j r.by_id)
  unfolding start
  find_id-start j r none workspace utc since = ground arith
  find_id-start j r (some owner) workspace utc since =
      ground (arith, find_id-on_runtime j owner.project.id (start_runtime workspace utc) r.by_id)

  on_entry-on_entry :
      (f g : ProjectRuntime T → ProjectRuntime T) (o : Option (ProjectEntry T))
      → on_entry f (on_entry g o) ≡ on_entry (λ rt. f (g rt)) o
  on_entry-on_entry f g none = refl
  on_entry-on_entry f g (some e) = refl

  pub find_id-handle_workspace_change :
      (j : Uuid) (r : ProjectRegistry T) (workspace : Text) (now : ℕ) (utc : T) (since : ℕ)
      → find_id j (handle_workspace_change r workspace now utc since).by_id
        ≡ on_entry
            (λ rt.
              started
                (id_of (find_owner workspace r.by_id))
                j
                workspace
                utc
                (stopped r.focus j now rt))
            (find_id j r.by_id)
  unfolding handle_workspace_change
  find_id-handle_workspace_change j r workspace now utc since =
      let owner = find_owner workspace r.by_id in
      find_id-start j (record r { by_id = stop r.by_id r.focus now; focus = none }) owner workspace
        utc since
      ∙ ap (on_entry (started (id_of owner) j workspace utc)) (find_id-stop j r.by_id r.focus now)
      ∙ on_entry-on_entry (started (id_of owner) j workspace utc) (stopped r.focus j now)
          (find_id j r.by_id)

  focus-start :
      (r : ProjectRegistry T) (owner : Option (ProjectEntry T)) (workspace : Text) (utc : T)
      (since : ℕ)
      → r.focus ≡ none
      → (start r owner workspace utc since).focus ≡ tick_of (id_of owner) workspace since
  unfolding start
  focus-start r none workspace utc since h = h
  focus-start r (some owner) workspace utc since h = refl

  pub focus-handle_workspace_change :
      (r : ProjectRegistry T) (workspace : Text) (now : ℕ) (utc : T) (since : ℕ)
      → (handle_workspace_change r workspace now utc since).focus
        ≡ tick_of (id_of (find_owner workspace r.by_id)) workspace since
  unfolding handle_workspace_change
  focus-handle_workspace_change r workspace now utc since =
      focus-start _ (find_owner workspace r.by_id) workspace utc since refl

  find_owner-stop :
      (w : Text) (es : Index T) (focus : Option FocusTick) (now : ℕ)
      → id_of (find_owner w (stop es focus now)) ≡ id_of (find_owner w es)
  unfolding stop
  find_owner-stop w es none now = refl
  find_owner-stop w es (some t) now = find_owner-on_runtime w t.project_id (stop_runtime t now) es

  find_owner-start :
      (w : Text) (r : ProjectRegistry T) (owner : Option (ProjectEntry T)) (workspace : Text)
      (utc : T) (since : ℕ)
      → id_of (find_owner w (start r owner workspace utc since).by_id)
        ≡ id_of (find_owner w r.by_id)
  unfolding start
  find_owner-start w r none workspace utc since = refl
  find_owner-start w r (some owner) workspace utc since =
      find_owner-on_runtime w owner.project.id (start_runtime workspace utc) r.by_id

  -- A change of the workspace does not change who owns which.
  pub find_owner-handle_workspace_change :
      (w : Text) (r : ProjectRegistry T) (workspace : Text) (now : ℕ) (utc : T) (since : ℕ)
      → id_of (find_owner w (handle_workspace_change r workspace now utc since).by_id)
        ≡ id_of (find_owner w r.by_id)
  unfolding handle_workspace_change
  find_owner-handle_workspace_change w r workspace now utc since =
      find_owner-start w _ (find_owner workspace r.by_id) workspace utc since
      ∙ find_owner-stop w r.by_id r.focus now
