-- ===== src/Projects.antt =====
-- The projects of crates/levshell-data/src/models.rs and crates/levshell-projects/src/registry.rs.
-- An id is its number, a path its text. The type of the wall-clock times is a parameter.
pub mod Registry
use levshell.Prelude.{ℕ, Text, Option, List}

abbrev pub Uuid : Type 0
Uuid = ℕ

pub data EntityType : Type 0 where
  project note reference flashcard event task experiment : EntityType

pub data ProjectStatus : Type 0 where
  active simmering blocked writing_up complete : ProjectStatus

pub record Project (T : Type 0) : Type 0 where
  pub id : Uuid
  pub name : Text
  pub status : ProjectStatus
  pub description : Text
  pub open_questions : List Text
  pub created_at : T
  pub updated_at : T

pub record ProjectMetadata : Type 0 where
  pub tags : List Text
  pub git_repos : List Text
  pub ssh_hosts : List Text
  pub workspace_names : List Text
  pub accent_color : Option Text

pub record ProjectRuntime (T : Type 0) : Type 0 where
  pub last_active_at : Option T
  pub accumulated_focus_time_secs : ℕ
  pub currently_active_workspaces : List Text

pub record ProjectEntry (T : Type 0) : Type 0 where
  pub project : Project T
  pub metadata : ProjectMetadata
  pub runtime : ProjectRuntime T
