-- ===== src/Projects/Registry/Time.antt =====
-- The focus time that crates/levshell-projects/src/registry.rs gives to each project.
use levshell.Prelude.{
  ℕ, ◌+◌, ◌-◌, ◌≤◌, min, ◌≡◌, refl, ◌∙◌, ap, Text, ◌==◌, Option, none, some, List, [], ◌∷◌,
  if◌then◌else◌, arith,
}
use levshell.Projects.{Uuid, ProjectRuntime, ProjectEntry}
use levshell.Projects.Registry.{
  FocusTick, ProjectRegistry, u64_max, as_secs, find_id, find_owner, handle_workspace_change,
}
use levshell.Projects.Registry.Index.{
  on_entry, id_of, stopped, started, tick_of, find_id-handle_workspace_change,
  focus-handle_workspace_change, find_owner-handle_workspace_change,
}

-- A change of the workspace in focus, at its times.
pub record Change (T : Type 0) : Type 0 where
  pub workspace : Text
  pub now : ℕ
  pub utc : T
  pub since : ℕ

-- The whole seconds since the start of the stopwatch, if it is that of the project.
abbrev pub credit : Option FocusTick → Uuid → ℕ → ℕ
credit none j now = 0
credit (some t) j now = if t.project_id == j then as_secs (now - t.since) else 0

module _ {T : Type 0} where
  unfoldable pub run : ProjectRegistry T → List (Change T) → ProjectRegistry T
  run r [] = r
  run r (c ∷ cs) = run (handle_workspace_change r c.workspace c.now c.utc c.since) cs

  -- The seconds that the project is in focus, by the owners of the workspaces.
  abbrev pub owned_secs : (Text → Option Uuid) → Uuid → Option FocusTick → List (Change T) → ℕ
  owned_secs own j focus [] = 0
  owned_secs own j focus (c ∷ cs) =
      credit focus j c.now + owned_secs own j (tick_of (own c.workspace) c.workspace c.since) cs

  stopped-secs :
      (focus : Option FocusTick) (j : Uuid) (now : ℕ) (rt : ProjectRuntime T)
      → rt.accumulated_focus_time_secs ≤ u64_max
      → (stopped focus j now rt).accumulated_focus_time_secs
        ≡ min (rt.accumulated_focus_time_secs + credit focus j now) u64_max
  stopped-secs none j now rt h = omega (arith, h)
  stopped-secs (some t) j now rt h = ground arith

  started-secs :
      (id : Option Uuid) (j : Uuid) (workspace : Text) (utc : T) (rt : ProjectRuntime T)
      → (started id j workspace utc rt).accumulated_focus_time_secs ≡ rt.accumulated_focus_time_secs
  started-secs none j workspace utc rt = refl
  started-secs (some id) j workspace utc rt = ground arith

  run-secs :
      (own : Text → Option Uuid) (r : ProjectRegistry T) (cs : List (Change T)) (j : Uuid)
      (e : ProjectEntry T)
      → ((w : Text) → id_of (find_owner w r.by_id) ≡ own w)
      → find_id j r.by_id ≡ some e
      → e.runtime.accumulated_focus_time_secs ≤ u64_max
      → (e' : ProjectEntry T) × (find_id j (run r cs).by_id ≡ some e')
        × (e'.project ≡ e.project)
        × (e'.runtime.accumulated_focus_time_secs
            ≡ min (e.runtime.accumulated_focus_time_secs + owned_secs own j r.focus cs) u64_max)
  unfolding run
  run-secs own r [] j e owners found h = (e, found, refl, omega (arith, h))
  run-secs own r (c ∷ cs) j e owners found h =
      let r1 = handle_workspace_change r c.workspace c.now c.utc c.since in
      let owner = id_of (find_owner c.workspace r.by_id) in
      let halted = stopped r.focus j c.now e.runtime in
      let rt = started owner j c.workspace c.utc halted in
      let e1 : ProjectEntry T = record e { runtime = rt } in
      let found1 : find_id j r1.by_id ≡ some e1 =
        find_id-handle_workspace_change j r c.workspace c.now c.utc c.since
        ∙ ap (on_entry _) found in
      let secs : rt.accumulated_focus_time_secs
          ≡ min (e.runtime.accumulated_focus_time_secs + credit r.focus j c.now) u64_max =
        started-secs owner j c.workspace c.utc halted ∙ stopped-secs r.focus j c.now e.runtime h in
      let (e', ran, same, total) =
        run-secs own r1 cs j e1
          (λ w. find_owner-handle_workspace_change w r c.workspace c.now c.utc c.since ∙ owners w)
          found1 (omega (arith, secs)) in
      let focus1 : r1.focus ≡ tick_of (own c.workspace) c.workspace c.since =
        focus-handle_workspace_change r c.workspace c.now c.utc c.since
        ∙ ap (λ o. tick_of o c.workspace c.since) (owners c.workspace) in
      let rest : owned_secs own j r1.focus cs
          ≡ owned_secs own j (tick_of (own c.workspace) c.workspace c.since) cs =
        ap (λ f. owned_secs own j f cs) focus1 in
      (e', ran, same, omega (arith, total, secs, rest))

  -- From a state in which a project has accumulated no more than a u64 holds: after any changes of
  -- the workspace, the project is still there, and has accumulated the whole seconds of each stay
  -- on a workspace that it owns, up to the maximum of a u64.
  pub run-focus_time :
      (r : ProjectRegistry T) (cs : List (Change T)) (j : Uuid) (e : ProjectEntry T)
      → find_id j r.by_id ≡ some e
      → e.runtime.accumulated_focus_time_secs ≤ u64_max
      → (e' : ProjectEntry T) × (find_id j (run r cs).by_id ≡ some e')
        × (e'.project ≡ e.project)
        × (e'.runtime.accumulated_focus_time_secs
            ≡ min
                (e.runtime.accumulated_focus_time_secs
                  + owned_secs (λ w. id_of (find_owner w r.by_id)) j r.focus cs)
                u64_max)
  run-focus_time r cs j e found h =
      run-secs (λ w. id_of (find_owner w r.by_id)) r cs j e (λ w. refl) found h
