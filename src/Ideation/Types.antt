-- ===== src/Ideation/Types.antt =====
-- The types of crates/levshell-modules/src/ideation, and what the selector takes from elsewhere.
use levshell.Prelude.{ℕ, Text, Bool, Option, List}
use levshell.Rules.{ℤ}
use levshell.Projects.{Uuid, EntityType, ProjectEntry}

pub data NudgeKind : Type 0 where
  open_question cross_connection blocked_escalation : NudgeKind

pub record Nudge : Type 0 where
  pub project_id : Uuid
  pub kind : NudgeKind
  pub title : Text
  pub body : Text

pub record NudgeWeights (N : Type 0) : Type 0 where
  pub open_question : N
  pub cross_connection : N
  pub blocked : N

pub record IdeationConfig (N : Type 0) : Type 0 where
  pub enabled : Bool
  pub lambda_minutes : N
  pub tick_secs : ℕ
  pub weights : NudgeWeights N
  pub blocked_escalation_factor : N
  pub stale_project_hours : ℕ
  pub recent_seed_hours : ℕ

pub record GraphLink : Type 0 where
  pub kind : Text
  pub neighbour_label : Text
  pub neighbour_project : Option Uuid

pub record RecentEntity (T : Type 0) : Type 0 where
  pub id : Uuid
  pub entity_type : EntityType
  pub title : Text
  pub project_id : Option Uuid
  pub tags : List Text
  pub updated_at : T
  pub graph_links : List GraphLink

pub record NudgeContext (T N : Type 0) : Type 0 where
  pub projects : List (ProjectEntry T)
  pub recent_entities : List (RecentEntity T)
  pub now : T
  pub config : IdeationConfig N

-- What the selector takes from f64: `> 0.0`, `<= 0.0`, whether the first is not below the second,
-- `-`, `*` and the sum.
pub record Floats (N : Type 0) : Type 0 where
  pub is_positive : N → Bool
  pub is_spent : N → Bool
  pub not_less : N → N → Bool
  pub sub : N → N → N
  pub mul : N → N → N
  pub sum : List N → N

-- What it takes from chrono: `>=`, `<`, `now - Duration::hours(h)`, and the date in ISO form.
pub record Chrono (T : Type 0) : Type 0 where
  pub not_before : T → T → Bool
  pub is_before : T → T → Bool
  pub sub_hours : T → ℤ → Option T
  pub date_text : T → Text

-- What it takes from rand: a number in [0, 1), a shuffle and a uniform choice.
pub record Rng (R N : Type 0) : Type 1 where
  pub gen : R → N × R
  pub shuffle : {A : Type 0} → List A → R → List A × R
  pub choose : {A : Type 0} → List A → R → Option A × R
