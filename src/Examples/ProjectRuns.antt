-- ===== src/Examples/ProjectRuns.antt =====
-- Runs of crates/levshell-projects/src/registry.rs and of crates/levshell-modules/src/ideation.
use levshell.Prelude.{
  ℕ, ◌+◌, ◌-◌, ◌*◌, min, ◌≡◌, refl, inl, inr, bytes, text_eq, Member, any_of, true, ◌==◌, ltb, leb,
  Option, none, some, List, [], ◌∷◌, filter_by, arith,
}
use levshell.Rules.{ℤ, pos, negsuc}
use levshell.Projects.{ProjectStatus, ProjectEntry, EntityType}
use levshell.Projects.Registry.{ProjectRegistry, u64_max, empty, find_id, find_owner, find_by_tags}
use levshell.Projects.Registry.Index.{id_of}
use levshell.Projects.Registry.Time.{Change, run, owned_secs, run-focus_time}
use levshell.Projects.Registry.Tags.{IsTagged, find_by_tags-IsTagged}
use levshell.Projects.Registry.Tracked.{
  Call, reload, focus_on, IsTracked, run_calls, run_calls-IsTracked,
}
use levshell.Ideation.{
  cross_connection, Nudge, NudgeContext, RecentEntity, IdeationConfig, Floats, Chrono, Rng, as_i64,
  select, ranked, first_kind, attempt_order, attempt, pick, pick_cross_connection, fresh,
  cross_connections, eligible_projects, graph_pass, tag_pass, graph_candidates, overlaps,
  common_tags, tag_nudge, nudge_about, entity_label, join, flat_map, kind_eq,
}
use levshell.Cascade.{sort_by, sort_insert}
use levshell.Ideation.Grounds.{IsRng, IsJustified}
use levshell.Ideation.Sound.{HasNudge}
use levshell.Ideation.Select.{weight_of, select-IsJustified, select-HasNudge}

-- Times in hours.
abbrev thesis : ProjectEntry ℕ
thesis = record {
  project = record {
    id = 1;
    name = bytes "thesis";
    status = ProjectStatus.active;
    description = bytes "";
    open_questions = bytes "which bound?" ∷ [];
    created_at = 10;
    updated_at = 90;
  };
  metadata = record {
    tags = bytes "proofs" ∷ [];
    git_repos = [];
    ssh_hosts = [];
    workspace_names = bytes "write" ∷ [];
    accent_color = none;
  };
  runtime = record {
    last_active_at = none;
    accumulated_focus_time_secs = 5;
    currently_active_workspaces = [];
  };
}

abbrev compiler : ProjectEntry ℕ
compiler = record thesis {
  project = record {
    id = 2;
    name = bytes "compiler";
    status = ProjectStatus.blocked;
    description = bytes "";
    open_questions = [];
    created_at = 10;
    updated_at = 20;
  };
  metadata = record {
    tags = bytes "proofs" ∷ bytes "types" ∷ [];
    git_repos = [];
    ssh_hosts = [];
    workspace_names = bytes "code" ∷ [];
    accent_color = none;
  };
}

abbrev registry : ProjectRegistry ℕ
registry = record { by_id = (1, thesis) ∷ (2, compiler) ∷ []; by_name = []; focus = none }

abbrev changes : List (Change ℕ)
changes =
    record { workspace = bytes "write"; now = 0; utc = 100; since = 0 }
    ∷ record { workspace = bytes "code"; now = 61000000000; utc = 100; since = 61000000000 }
    ∷ record { workspace = bytes "mail"; now = 63500000000; utc = 100; since = 63500000000 }
    ∷ []

registry-thesis : find_id 1 registry.by_id ≡ some thesis
unfolding find_id
registry-thesis = refl

run-focus_time_example :
    (e' : ProjectEntry ℕ) × (find_id 1 (run registry changes).by_id ≡ some e')
    × (e'.project ≡ thesis.project)
    × (e'.runtime.accumulated_focus_time_secs
        ≡ min (5 + owned_secs (λ w. id_of (find_owner w registry.by_id)) 1 none changes) u64_max)
run-focus_time_example = run-focus_time registry changes 1 thesis registry-thesis (omega arith)

-- A minute and a second on the workspace of the first project.
owned_secs_test : owned_secs (λ w. id_of (find_owner w registry.by_id)) 1 none changes ≡ 61
unfolding find_owner any_of text_eq
owned_secs_test = refl

abbrev reloads : List (Call ℕ)
reloads =
    reload thesis.project thesis.metadata
    ∷ focus_on (bytes "write") 0 100 0
    ∷ reload compiler.project compiler.metadata
    ∷ focus_on (bytes "code") 61000000000 100 61000000000
    ∷ reload compiler.project thesis.metadata
    ∷ []

run_calls-IsTracked_example : IsTracked (run_calls empty reloads)
run_calls-IsTracked_example = run_calls-IsTracked reloads

find_by_tags-IsTagged_example :
    IsTagged
      (bytes "proofs" ∷ bytes "types" ∷ [])
      (find_by_tags registry (bytes "proofs" ∷ bytes "types" ∷ []))
      registry.by_id
find_by_tags-IsTagged_example = find_by_tags-IsTagged (bytes "proofs" ∷ bytes "types" ∷ []) registry

abbrev first_of_list : {A : Type 0} → List A → Option A
first_of_list [] = none
first_of_list (x ∷ xs) = some x

-- A generator that always takes the first and leaves the order.
abbrev first_rng : Rng ℕ ℕ
first_rng = record {
  gen = λ r. (0, r + 1);
  shuffle = λ xs r. (xs, r);
  choose = λ xs r. (first_of_list xs, r);
}

first_of_list-Member : {A : Type 0} (a : A) (xs : List A) → first_of_list xs ≡ some a → Member a xs
first_of_list-Member a [] h = cc
first_of_list-Member a (x ∷ xs) h = inl cc

first_of_list-some :
    {A : Type 0} (a : A) (xs : List A) → Member a xs → (b : A) × (first_of_list xs ≡ some b)
first_of_list-some a [] m = absurd m
first_of_list-some a (x ∷ xs) m = (x, refl)

first_rng-IsRng : IsRng first_rng
first_rng-IsRng = record {
  choose-Member = λ a xs r h. first_of_list-Member a xs h;
  choose-some = λ a xs r m. first_of_list-some a xs m;
  shuffle-Member = λ a xs r. (λ m. m, λ m. m);
}

abbrev sum_of : List ℕ → ℕ
sum_of [] = 0
sum_of (x ∷ xs) = x + sum_of xs

abbrev whole : Floats ℕ
whole = record {
  is_positive = λ n. ltb 0 n;
  is_spent = λ n. n == 0;
  not_less = λ a b. leb b a;
  sub = λ a b. a - b;
  mul = λ a b. a * b;
  sum = sum_of;
}

abbrev sub_hours : ℕ → ℤ → Option ℕ
sub_hours t (pos h) = some (t - h)
sub_hours t (negsuc h) = some (t + (h + 1))

abbrev hours : Chrono ℕ
hours = record {
  not_before = λ a b. leb b a;
  is_before = λ a b. ltb a b;
  sub_hours = sub_hours;
  date_text = λ t. bytes "2026-04-16";
}

abbrev note : RecentEntity ℕ
note = record {
  id = 9;
  entity_type = EntityType.note;
  title = bytes "on bounds";
  project_id = some 1;
  tags = bytes "types" ∷ [];
  updated_at = 98;
  graph_links = [];
}

abbrev ideation_config : IdeationConfig ℕ
ideation_config = record {
  enabled = true;
  lambda_minutes = 45;
  tick_secs = 60;
  weights = record { open_question = 0; cross_connection = 2; blocked = 1 };
  blocked_escalation_factor = 3;
  stale_project_hours = 24;
  recent_seed_hours = 6;
}

abbrev context : NudgeContext ℕ ℕ
context = record {
  projects = thesis ∷ compiler ∷ [];
  recent_entities = note ∷ [];
  now = 100;
  config = ideation_config;
}

select-HasNudge_example : HasNudge (select whole first_rng hours context 7)
unfolding as_i64
select-HasNudge_example =
    select-HasNudge whole first_rng first_rng-IsRng hours context 7 cross_connection compiler refl
      ((94, refl), (76, refl)) (inr (inl refl), refl)
      (note, (inl refl, (94, refl, refl)), refl, inr (bytes "types", inl refl, inr (inl refl)))

abbrev nudge : Nudge
nudge = record {
  project_id = 2;
  kind = cross_connection;
  title = bytes "compiler";
  body = bytes "Recent note \"on bounds\" shares tags [types] with this project.";
}

select_test : select whole first_rng hours context 7 ≡ some (some nudge, 8)
unfolding select ranked first_kind attempt_order attempt pick pick_cross_connection fresh
    cross_connections eligible_projects graph_pass tag_pass graph_candidates overlaps common_tags
    tag_nudge nudge_about entity_label join flat_map kind_eq as_i64 sort_by sort_insert filter_by
    any_of text_eq
select_test = refl

select-IsJustified_example :
    (whole.is_positive (weight_of ideation_config.weights cross_connection) ≡ true)
    × IsJustified hours context cross_connection nudge
select-IsJustified_example =
    select-IsJustified whole first_rng first_rng-IsRng hours context 7 nudge 8 select_test
