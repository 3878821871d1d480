-- ===== src/Ideation.antt =====
-- The selector of crates/levshell-modules/src/ideation: selector.rs, with the types of nudge.rs and
-- config.rs. The random generator, chrono and the arithmetic of f64 are parameters. `none` around a
-- result stands for a panic of chrono, which a span out of its range causes.
mod Types
pub mod Grounds
pub mod Picks
pub mod Passes
pub mod Found
pub mod Sound
pub mod Finds
pub mod Select
pub use Types.*
use levshell.Prelude.{
  ℕ, ◌-◌, ◌^◌, max, ltb, Text, bytes, text_eq, Bool, true, false, not, ◌&&◌, ◌||◌, ◌==◌, Option,
  none, some, List, [], ◌∷◌, ◌++◌, map, filter_by, any_of, if◌then◌else◌,
}
use levshell.Rules.{ℤ, pos, negsuc}
use levshell.Cascade.{sort_by}
use levshell.Projects.{Uuid, EntityType, ProjectStatus, ProjectEntry}

-- The bytes of U+2014.
abbrev em_dash : Text
em_dash = 226 ∷ 128 ∷ 148 ∷ []

-- `u64 as i64`.
unfoldable pub as_i64 : ℕ → ℤ
as_i64 n = if ltb n (2 ^ 63) then pos n else negsuc (2 ^ 64 - n - 1)

unfoldable pub kind_eq : NudgeKind → NudgeKind → Bool
kind_eq open_question open_question = true
kind_eq cross_connection cross_connection = true
kind_eq blocked_escalation blocked_escalation = true
kind_eq _ _ = false

abbrev pub is_complete : ProjectStatus → Bool
is_complete ProjectStatus.complete = true
is_complete _ = false

abbrev pub is_blocked : ProjectStatus → Bool
is_blocked ProjectStatus.blocked = true
is_blocked _ = false

abbrev pub is_owner : Option Uuid → Uuid → Bool
is_owner none id = false
is_owner (some owner) id = owner == id

unfoldable pub entity_label : EntityType → Text
entity_label EntityType.reference = bytes "reference"
entity_label _ = bytes "note"

-- `Iterator::flat_map`.
unfoldable pub flat_map : {A B : Type 0} → (A → List B) → List A → List B
flat_map f [] = []
flat_map f (x ∷ xs) = f x ++ flat_map f xs

abbrev pub to_list : {A : Type 0} → Option A → List A
to_list none = []
to_list (some a) = a ∷ []

-- `[String]::join`.
unfoldable pub join : Text → List Text → Text
join sep [] = []
join sep (t ∷ []) = t
join sep (t ∷ u ∷ ts) = t ++ (sep ++ join sep (u ∷ ts))

module _ {T : Type 0} where
  unfoldable pub find_project : Uuid → List (ProjectEntry T) → Option (ProjectEntry T)
  find_project id [] = none
  find_project id (p ∷ ps) = if p.project.id == id then some p else find_project id ps

  unfoldable pub eligible_projects : {N : Type 0} → NudgeContext T N → List (ProjectEntry T)
  eligible_projects ctx = filter_by (λ p. not (is_complete p.project.status)) ctx.projects

  unfoldable pub questions : ProjectEntry T → List (ProjectEntry T × Text)
  questions p = map (λ q. (p, q)) p.project.open_questions

  unfoldable pub nudge_about : ProjectEntry T → NudgeKind → Text → Nudge
  nudge_about p kind body = record {
    project_id = p.project.id;
    kind = kind;
    title = p.project.name;
    body = body;
  }

  -- The project that a link leads to, if that is a candidate.
  unfoldable pub link_target :
      List (ProjectEntry T) → Option Uuid → Option Uuid → Option (ProjectEntry T)
  link_target eligible own none = none
  link_target eligible own (some np) = if is_owner own np then none else find_project np eligible

  unfoldable pub graph_candidates :
      List (ProjectEntry T) → RecentEntity T → List (ProjectEntry T × GraphLink)
  graph_candidates eligible entity =
      flat_map
        (λ link.
          map (λ p. (p, link))
            (to_list (link_target eligible entity.project_id link.neighbour_project)))
        entity.graph_links

  unfoldable pub graph_nudge : RecentEntity T → ProjectEntry T × GraphLink → Nudge
  graph_nudge entity (p, link) = nudge_about p cross_connection (
      bytes "Recent "
      ++ (entity_label entity.entity_type
          ++ (bytes " \""
              ++ (entity.title
                  ++ (bytes "\" is linked ("
                      ++ (link.kind
                          ++ (bytes ") to \""
                              ++ (link.neighbour_label
                                  ++ (bytes "\" in this project "
                                      ++ (em_dash ++ bytes " surface the connection?"))))))))))

  unfoldable pub common_tags : RecentEntity T → ProjectEntry T → List Text
  common_tags entity p = filter_by (λ t. any_of (λ et. text_eq et t) entity.tags) p.metadata.tags

  abbrev pub with_common : ProjectEntry T → List Text → List (ProjectEntry T × List Text)
  with_common p [] = []
  with_common p (t ∷ ts) = (p, t ∷ ts) ∷ []

  unfoldable pub overlaps :
      List (ProjectEntry T) → RecentEntity T → List (ProjectEntry T × List Text)
  overlaps eligible entity =
      flat_map (λ p. with_common p (common_tags entity p))
        (filter_by (λ p. not (is_owner entity.project_id p.project.id)) eligible)

  unfoldable pub tag_nudge : RecentEntity T → ProjectEntry T × List Text → Nudge
  tag_nudge entity (p, common) = nudge_about p cross_connection (
      bytes "Recent "
      ++ (entity_label entity.entity_type
          ++ (bytes " \""
              ++ (entity.title
                  ++ (bytes "\" shares tags ["
                      ++ (join (bytes ", ") common ++ bytes "] with this project."))))))

-- A value made of the choice, if there is one.
abbrev pub chosen : {A B R : Type 0} → (A → B) → Option A × R → Option B × R
chosen f (none, r) = (none, r)
chosen f (some a, r) = (some (f a), r)

-- The first result, if there is one.
abbrev pub or_else : {B R : Type 0} → Option B × R → (R → Option B × R) → Option B × R
or_else (some b, r) next = (some b, r)
or_else (none, r) next = next r

module _ {T : Type 0} (chrono : Chrono T) where
  unfoldable pub needs_step : T → ProjectEntry T → Bool
  needs_step cutoff p = is_blocked p.project.status || chrono.is_before p.project.updated_at cutoff

  unfoldable pub blocked_body : ProjectEntry T → Text
  blocked_body p =
      if is_blocked p.project.status
      then bytes
          "This project is marked blocked. What's the smallest concrete next step you could take right now?"
      else bytes "This project has gone quiet since "
        ++ (chrono.date_text p.project.updated_at
            ++ bytes ". What's the smallest concrete next step you could take right now?")

  abbrev pub horizon : {N : Type 0} → NudgeContext T N → Option T
  horizon ctx = chrono.sub_hours ctx.now (as_i64 (max ctx.config.recent_seed_hours 1))

  unfoldable pub fresh : {N : Type 0} → NudgeContext T N → T → List (RecentEntity T)
  fresh ctx since = filter_by (λ e. chrono.not_before e.updated_at since) ctx.recent_entities

  abbrev pub stale_cutoff : {N : Type 0} → NudgeContext T N → Option T
  stale_cutoff ctx = chrono.sub_hours ctx.now (as_i64 (max ctx.config.stale_project_hours 1))

module _ {T N R : Type 0} (rng : Rng R N) (chrono : Chrono T) where
  unfoldable pub pick_open_question : NudgeContext T N → R → Option Nudge × R
  pick_open_question ctx r =
      chosen (λ c. nudge_about c.0 open_question c.1)
        (rng.choose (flat_map questions (eligible_projects ctx)) r)

  -- The first pass over the shuffled entities, along the relation graph.
  unfoldable pub graph_pass : List (ProjectEntry T) → List (RecentEntity T) → R → Option Nudge × R
  graph_pass eligible [] r = (none, r)
  graph_pass eligible (entity ∷ entities) r =
      or_else (chosen (graph_nudge entity) (rng.choose (graph_candidates eligible entity) r))
        (λ r1. graph_pass eligible entities r1)

  -- The second pass, by tags.
  unfoldable pub tag_pass : List (ProjectEntry T) → List (RecentEntity T) → R → Option Nudge × R
  tag_pass eligible [] r = (none, r)
  tag_pass eligible (entity ∷ entities) r = elim entity.tags [
    | [] ↦ tag_pass eligible entities r
    | t ∷ ts ↦
        or_else (chosen (tag_nudge entity) (rng.choose (overlaps eligible entity) r))
          (λ r1. tag_pass eligible entities r1)
  ]

  unfoldable pub cross_connections :
      List (ProjectEntry T) → List (RecentEntity T) → R → Option Nudge × R
  cross_connections eligible [] r = (none, r)
  cross_connections eligible (entity ∷ entities) r =
      let (shuffled, r1) = rng.shuffle (entity ∷ entities) r in
      or_else (graph_pass eligible shuffled r1) (λ r2. tag_pass eligible shuffled r2)

  unfoldable pub pick_cross_connection : NudgeContext T N → R → Option (Option Nudge × R)
  pick_cross_connection ctx r = elim (horizon chrono ctx) [
    | none ↦ none
    | some since ↦ some (cross_connections (eligible_projects ctx) (fresh chrono ctx since) r)
  ]

  unfoldable pub pick_blocked_escalation : NudgeContext T N → R → Option (Option Nudge × R)
  pick_blocked_escalation ctx r = elim (stale_cutoff chrono ctx) [
    | none ↦ none
    | some cutoff ↦ some (
        chosen (λ p. nudge_about p blocked_escalation (blocked_body chrono p))
          (rng.choose (filter_by (needs_step chrono cutoff) (eligible_projects ctx)) r))
  ]

  unfoldable pub pick : NudgeKind → NudgeContext T N → R → Option (Option Nudge × R)
  pick open_question ctx r = some (pick_open_question ctx r)
  pick cross_connection ctx r = pick_cross_connection ctx r
  pick blocked_escalation ctx r = pick_blocked_escalation ctx r

  -- The loop over the order of attempts.
  unfoldable pub attempt : List NudgeKind → NudgeContext T N → R → Option (Option Nudge × R)
  attempt [] ctx r = some (none, r)
  attempt (kind ∷ kinds) ctx r = elim (pick kind ctx r) [
    | none ↦ none
    | some (some nudge, r1) ↦ some (some nudge, r1)
    | some (none, r1) ↦ attempt kinds ctx r1
  ]

module _ {N : Type 0} (f : Floats N) where
  unfoldable pub ranked : NudgeWeights N → List (NudgeKind × N)
  ranked w =
      sort_by (λ a b. f.not_less a.1 b.1)
        (filter_by (λ e. f.is_positive e.1)
          ((open_question, w.open_question)
            ∷ (cross_connection, w.cross_connection)
            ∷ (blocked_escalation, w.blocked)
            ∷ []))

  -- The kind at which the roll is spent, or the one given.
  unfoldable pub first_kind : NudgeKind → N → List (NudgeKind × N) → NudgeKind
  first_kind default roll [] = default
  first_kind default roll ((kind, w) ∷ rest) =
      let left = f.sub roll w in if f.is_spent left then kind else first_kind default left rest

  unfoldable pub attempt_order : NudgeKind → List (NudgeKind × N) → List NudgeKind
  attempt_order first es = first ∷ filter_by (λ k. not (kind_eq k first)) (map (λ e. e.0) es)

  unfoldable pub select :
      {T R : Type 0} → Rng R N → Chrono T → NudgeContext T N → R → Option (Option Nudge × R)
  select rng chrono ctx r = elim (ranked ctx.config.weights) [
    | [] ↦ some (none, r)
    | (kind, w) ∷ rest ↦
        let es : List (NudgeKind × N) = (kind, w) ∷ rest in
        let (u, r1) = rng.gen r in
        let first = first_kind kind (f.mul u (f.sum (map (λ e. e.1) es))) es in
        attempt rng chrono (attempt_order first es) ctx r1
  ]
