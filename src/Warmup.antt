-- ===== src/Warmup.antt =====
-- crates/levshell-modules/src/warmup: when the overlay of the morning opens. trigger.rs decides and
-- mod.rs fires, stamps and persists. The wall clock is chrono's, a parameter: `T` is its time,
-- `day` the calendar day of a time and `num_seconds a b` the whole seconds from `b` to `a`. An
-- Instant and a Duration count nanoseconds. What the payload holds is left out: `payload` says
-- whether the store could supply it.
pub mod Apart
use levshell.Prelude.{
  ℕ, ◌*◌, ◌-◌, max, Text, bytes, text_eq, Bool, true, false, ◌&&◌, Option, none, some,
  if◌then◌else◌, ltb, leb,
}
use levshell.Rules.{ℤ, pos, negsuc}

pub record WarmupConfig : Type 0 where
  pub enabled : Bool
  pub gap_secs : ℕ
  pub calendar_day_trigger : Bool

abbrev pub default_config : WarmupConfig
default_config = record { enabled = true; gap_secs = 14400; calendar_day_trigger = false }

unfoldable pub gap : WarmupConfig → ℕ
gap config = max config.gap_secs 1 * 1000000000

-- `.max(0) as u64`.
abbrev pub at_least_zero : ℤ → ℕ
at_least_zero (pos n) = n
at_least_zero (negsuc n) = 0

pub record TriggerState : Type 0 where
  pub last_activity_at : Option ℕ

-- What the file of PersistedWarmupState holds, `persisted`, stands beside the module's fields.
pub record WarmupModule (T : Type 0) : Type 0 where
  pub config : WarmupConfig
  pub tracker : TriggerState
  pub last_warmup_at : Option T
  pub persisted : Option T

-- A call's result: the payload published, nothing to do, or ModuleError.
pub data Outcome (T : Type 0) : Type 0 where
  fired : T → Outcome T
  nothing failed : Outcome T

abbrev pub had_gap : ℕ → ℕ → Option ℕ → Bool
had_gap gap_ns now none = true
had_gap gap_ns now (some t) = leb gap_ns (now - t)

module _ {T : Type 0} where
  unfoldable pub fire : WarmupModule T → T → Bool → WarmupModule T × Outcome T
  fire m now_utc payload =
      if payload
      then (record m { last_warmup_at = some now_utc; persisted = some now_utc }, fired now_utc)
      else (m, failed)

  unfoldable pub on_ctl_request : WarmupModule T → Text → T → Bool → WarmupModule T × Outcome T
  on_ctl_request m action now_utc payload =
      if text_eq action (bytes "open") then fire m now_utc payload else (m, nothing)

module _ {T : Type 0} (day : T → ℕ) (num_seconds : T → T → ℤ) where
  abbrev pub day_crossed : T → Option T → Bool
  day_crossed now none = true
  day_crossed now (some prev) = ltb (day prev) (day now)

  abbrev pub is_stale : ℕ → T → Option T → Bool
  is_stale gap_secs now none = true
  is_stale gap_secs now (some prev) = leb gap_secs (at_least_zero (num_seconds now prev))

  unfoldable pub would_fire : Option ℕ → ℕ → T → Option T → WarmupConfig → Bool
  would_fire last_activity now_instant now_utc last_warmup_at config =
      if config.calendar_day_trigger && day_crossed now_utc last_warmup_at
      then true
      else if had_gap (gap config) now_instant last_activity
      then is_stale config.gap_secs now_utc last_warmup_at
      else false

  unfoldable pub decide : TriggerState → ℕ → T → Option T → WarmupConfig → TriggerState × Bool
  decide s now_instant now_utc last_warmup_at config =
      let fire = would_fire s.last_activity_at now_instant now_utc last_warmup_at config in
      (record { last_activity_at = some now_instant }, if config.enabled then fire else false)

  unfoldable pub on_activity : WarmupModule T → ℕ → T → Bool → WarmupModule T × Outcome T
  on_activity m now_instant now_utc payload =
      let decided = decide m.tracker now_instant now_utc m.last_warmup_at m.config in
      let m' = record m { tracker = decided.0 } in
      if decided.1 then fire m' now_utc payload else (m', nothing)

-- `with_config`, on what the file holds.
unfoldable pub with_config : {T : Type 0} → WarmupConfig → Option T → WarmupModule T
with_config config persisted = record {
  config = config;
  tracker = record { last_activity_at = none };
  last_warmup_at = persisted;
  persisted = persisted;
}
