-- ===== src/Projects/Registry.antt =====
-- The registry of crates/levshell-projects/src/registry.rs: the index in memory, and the stopwatch on
-- the project in focus. The maps are association lists, in any order; the locks are left out. The
-- times of `Instant` are in nanoseconds. What the data store answers is an argument.
pub mod Index
pub mod Tags
pub mod Time
pub mod Keyed
pub mod Tracked
use levshell.Prelude.{
  ℕ, suc, ◌+◌, ◌-◌, ◌/◌, ◌^◌, min, Text, text_eq, text_le, Assoc, lookup, insert, Bool, true, false,
  not, ◌&&◌, ◌||◌, ◌==◌, ltb, Option, none, some, List, [], ◌∷◌, length, map, filter_by, any_of,
  if◌then◌else◌,
}
use levshell.Cascade.{sort_by}
use levshell.Projects.{Uuid, EntityType, Project, ProjectMetadata, ProjectRuntime, ProjectEntry}

pub record FocusTick : Type 0 where
  pub project_id : Uuid
  pub workspace : Text
  pub since : ℕ

-- The entries by id.
abbrev pub Index : Type 0 → Type 0
Index T = List (Uuid × ProjectEntry T)

pub record ProjectRegistry (T : Type 0) : Type 0 where
  pub by_id : Index T
  pub by_name : Assoc Uuid
  pub focus : Option FocusTick

-- `u64::saturating_add`.
abbrev pub u64_max : ℕ
u64_max = 2 ^ 64 - 1

abbrev pub as_secs : ℕ → ℕ
as_secs nanos = nanos / 1000000000

-- A `BTreeSet<String>` as the list of its members; the order is not observed.
abbrev pub set_insert : Text → List Text → List Text
set_insert w ws = if any_of (λ v. text_eq v w) ws then ws else w ∷ ws

abbrev pub set_remove : Text → List Text → List Text
set_remove w ws = filter_by (λ v. not (text_eq v w)) ws

abbrev pub owns : ProjectMetadata → Text → Bool
owns m workspace = any_of (λ w. text_eq w workspace) m.workspace_names

module _ {T : Type 0} where
  unfoldable pub empty : ProjectRegistry T
  empty = record { by_id = []; by_name = []; focus = none }

  unfoldable pub find_id : Uuid → Index T → Option (ProjectEntry T)
  find_id id [] = none
  find_id id ((key, e) ∷ es) = if key == id then some e else find_id id es

  unfoldable pub put : Uuid → ProjectEntry T → Index T → Index T
  put id e [] = (id, e) ∷ []
  put id e ((key, d) ∷ es) = if key == id then (id, e) ∷ es else (key, d) ∷ put id e es

  -- `get_mut`, and the change of the runtime state that follows.
  unfoldable pub on_runtime : Uuid → (ProjectRuntime T → ProjectRuntime T) → Index T → Index T
  on_runtime id f [] = []
  on_runtime id f ((key, e) ∷ es) =
      if key == id
      then (key, record e { runtime = f e.runtime }) ∷ es
      else (key, e) ∷ on_runtime id f es

  abbrev pub default_runtime : ProjectRuntime T
  default_runtime = record {
    last_active_at = none;
    accumulated_focus_time_secs = 0;
    currently_active_workspaces = [];
  }

  abbrev pub runtime_of : Option (ProjectEntry T) → ProjectRuntime T
  runtime_of none = default_runtime
  runtime_of (some e) = e.runtime

  -- The last part of `upsert_from_file`, given the row that the store has updated or inserted.
  unfoldable pub register :
      ProjectRegistry T → Project T → ProjectMetadata → ProjectRegistry T × ProjectEntry T
  register r project metadata =
      let entry : ProjectEntry T = record {
        project = project;
        metadata = metadata;
        runtime = runtime_of (find_id project.id r.by_id);
      } in
      (
        record r {
          by_id = put project.id entry r.by_id;
          by_name = insert project.name project.id r.by_name;
        },
        entry,
      )

  unfoldable pub list : ProjectRegistry T → List (ProjectEntry T)
  list r = sort_by (λ a b. text_le a.project.name b.project.name) (map (λ e. e.1) r.by_id)

  unfoldable pub get : ProjectRegistry T → Uuid → Option (ProjectEntry T)
  get r id = find_id id r.by_id

  unfoldable pub find_by_name : ProjectRegistry T → Text → Option (ProjectEntry T)
  find_by_name r name = elim (lookup name r.by_name) [ none ↦ none | some id ↦ get r id ]

  -- `contains_key`.
  abbrev pub is_known : ProjectRegistry T → Uuid → Bool
  is_known r id = any_of (λ e. e.0 == id) r.by_id

  -- `UnknownProject` is `none`; `parse_str` is the one of the uuid crate.
  unfoldable pub resolve : (Text → Option Uuid) → ProjectRegistry T → Text → Option Uuid
  resolve parse_str r identifier = elim (find_by_name r identifier) [
    | some entry ↦ some entry.project.id
    | none ↦ elim (parse_str identifier) [
      | none ↦ none
      | some id ↦ if is_known r id then some id else none
    ]
  ]

  unfoldable pub overlap : List Text → ProjectEntry T → ℕ
  overlap tags e = length (filter_by (λ t. any_of (λ c. text_eq c t) tags) e.metadata.tags)

  -- Whether the entry takes the place of the best so far. `str` has a total order.
  unfoldable pub is_better : ProjectEntry T × ℕ → ProjectEntry T × ℕ → Bool
  is_better (e, n) (current, m) =
      ltb m n || (n == m && not (text_le current.project.name e.project.name))

  unfoldable pub best_of :
      List Text → Option (ProjectEntry T × ℕ) → Index T → Option (ProjectEntry T × ℕ)
  best_of tags best [] = best
  best_of tags best ((key, e) ∷ es) =
      let n = overlap tags e in
      best_of tags
        (if n == 0 then best else elim best [
          | none ↦ some (e, n)
          | some b ↦ if is_better (e, n) b then some (e, n) else some b
        ])
        es

  abbrev pub entry_of : Option (ProjectEntry T × ℕ) → Option (ProjectEntry T)
  entry_of none = none
  entry_of (some (e, n)) = some e

  unfoldable pub find_by_tags : ProjectRegistry T → List Text → Option (ProjectEntry T)
  find_by_tags r tags = entry_of (best_of tags none r.by_id)

  unfoldable pub find_owner : Text → Index T → Option (ProjectEntry T)
  find_owner workspace [] = none
  find_owner workspace ((key, e) ∷ es) =
      if owns e.metadata workspace then some e else find_owner workspace es

  unfoldable pub find_by_workspace : ProjectRegistry T → Text → Option (ProjectEntry T)
  find_by_workspace r workspace = find_owner workspace r.by_id

  abbrev pub stop_runtime : FocusTick → ℕ → ProjectRuntime T → ProjectRuntime T
  stop_runtime tick now rt = record rt {
    accumulated_focus_time_secs =
        min (rt.accumulated_focus_time_secs + as_secs (now - tick.since)) u64_max;
    currently_active_workspaces = set_remove tick.workspace rt.currently_active_workspaces;
  }

  -- The stopwatch stops at `now`.
  unfoldable pub stop : Index T → Option FocusTick → ℕ → Index T
  stop es none now = es
  stop es (some tick) now = on_runtime tick.project_id (stop_runtime tick now) es

  abbrev pub start_runtime : Text → T → ProjectRuntime T → ProjectRuntime T
  start_runtime workspace utc rt = record rt {
    last_active_at = some utc;
    currently_active_workspaces = set_insert workspace rt.currently_active_workspaces;
  }

  -- The stopwatch starts anew, for the project that owns the workspace.
  unfoldable pub start :
      ProjectRegistry T → Option (ProjectEntry T) → Text → T → ℕ → ProjectRegistry T
  start r none workspace utc since = r
  start r (some owner) workspace utc since = record r {
    by_id = on_runtime owner.project.id (start_runtime workspace utc) r.by_id;
    focus = some (record { project_id = owner.project.id; workspace = workspace; since = since });
  }

  -- The workspace in focus changes; the elapsed time is read at `now`, the new start is `since`.
  unfoldable pub handle_workspace_change : ProjectRegistry T → Text → ℕ → T → ℕ → ProjectRegistry T
  handle_workspace_change r workspace now utc since =
      start (record r { by_id = stop r.by_id r.focus now; focus = none })
        (find_owner workspace r.by_id) workspace utc since
