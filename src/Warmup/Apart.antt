-- ===== src/Warmup/Apart.antt =====
-- How often crates/levshell-modules/src/warmup opens its overlay by itself.
use levshell.Prelude.{
  ℕ, ◌≤◌, ◌<◌, ◌≡◌, ◌⊎◌, inl, inr, Text, bytes, text_eq, Bool, true, Option, none, some, List, [],
  ◌∷◌, arith, leb→le, ltb→lt, subst,
}
use levshell.Rules.{ℤ}
use levshell.Warmup.{
  WarmupConfig, gap, at_least_zero, WarmupModule, Outcome, fired, nothing, failed, had_gap,
  day_crossed, is_stale, would_fire, decide, fire, on_activity, on_ctl_request, with_config,
}

-- The user is active, or asks for the overlay.
pub data Call (T : Type 0) : Type 0 where
  activity : (now_instant : ℕ) → (now_utc : T) → (payload : Bool) → Call T
  ctl : (action : Text) → (now_utc : T) → (payload : Bool) → Call T

abbrev pub note_activity : {T : Type 0} → Option ℕ → Call T → Option ℕ
note_activity last (activity now utc payload) = some now
note_activity last (ctl action utc payload) = last

abbrev pub note_fire : {T : Type 0} → Option T → Outcome T → Option T
note_fire last (fired utc) = some utc
note_fire last nothing = last
note_fire last failed = last

module _ {T : Type 0} (day : T → ℕ) (num_seconds : T → T → ℤ) where
  abbrev pub call : WarmupModule T → Call T → WarmupModule T × Outcome T
  call m (activity now utc payload) = on_activity day num_seconds m now utc payload
  call m (ctl action utc payload) = on_ctl_request m action utc payload

  -- A time later than another by the gap or more, on the wall clock; or on a later day.
  abbrev pub IsApart : WarmupConfig → T → Option T → Type 0
  IsApart config now none = Unit
  IsApart config now (some prev) =
      (config.gap_secs ≤ at_least_zero (num_seconds now prev))
      ⊎ ((config.calendar_day_trigger ≡ true) × (day prev < day now))

  -- What a call that opens the overlay says, given the last activity and the last opening.
  abbrev pub IsDue : WarmupConfig → Option ℕ → Option T → Call T → Outcome T → Type 0
  IsDue config active last (activity now utc payload) (fired at) =
      (config.enabled ≡ true)
      × IsApart config at last
      × ((had_gap (gap config) now active ≡ true) ⊎ (config.calendar_day_trigger ≡ true))
  IsDue config active last (ctl action utc payload) (fired at) =
      text_eq action (bytes "open") ≡ true
  IsDue config active last c nothing = Unit
  IsDue config active last c failed = Unit

  -- Each opening of a run is due.
  abbrev pub AllDue : WarmupModule T → Option ℕ → Option T → List (Call T) → Type 0
  AllDue m active last [] = Unit
  AllDue m active last (c ∷ cs) =
      IsDue m.config active last c (call m c).1
      × AllDue (call m c).0 (note_activity active c) (note_fire last (call m c).1) cs

  ctl-IsDue :
      (m : WarmupModule T) (active : Option ℕ) (last : Option T) (action : Text) (utc : T)
      (payload : Bool)
      → IsDue m.config active last (ctl action utc payload) (on_ctl_request m action utc payload).1
  unfolding on_ctl_request fire
  ctl-IsDue m active last action utc payload = ground arith

  IsApart-stale :
      (config : WarmupConfig) (now : T) (last : Option T)
      → is_stale day num_seconds config.gap_secs now last ≡ true
      → IsApart config now last
  IsApart-stale config now none h = tt
  IsApart-stale config now (some prev) h = inl (leb→le _ _ h)

  IsApart-day :
      (config : WarmupConfig) (now : T) (last : Option T)
      → config.calendar_day_trigger ≡ true
      → day_crossed day num_seconds now last ≡ true
      → IsApart config now last
  IsApart-day config now none c h = tt
  IsApart-day config now (some prev) c h = inr (c, ltb→lt _ _ h)

  activity_IsDue :
      (m : WarmupModule T) (now : ℕ) (utc : T) (payload : Bool)
      → IsDue m.config m.tracker.last_activity_at m.last_warmup_at
          (activity now utc payload)
          (on_activity day num_seconds m now utc payload).1
  unfolding on_activity decide would_fire fire
  activity_IsDue m now utc payload = ground (
    arith,
    IsApart-stale m.config utc m.last_warmup_at,
    IsApart-day m.config utc m.last_warmup_at,
  )

  call-IsDue :
      (m : WarmupModule T) (c : Call T)
      → IsDue m.config m.tracker.last_activity_at m.last_warmup_at c (call m c).1
  call-IsDue m (activity now utc payload) = activity_IsDue m now utc payload
  call-IsDue m (ctl action utc payload) =
      ctl-IsDue m m.tracker.last_activity_at m.last_warmup_at action utc payload

  -- What a call leaves: the activity it noted, and the stamp of the opening, in memory and on disk.
  call_state :
      (m : WarmupModule T) (c : Call T)
      → ((call m c).0.tracker.last_activity_at ≡ note_activity m.tracker.last_activity_at c)
        × ((call m c).0.last_warmup_at ≡ note_fire m.last_warmup_at (call m c).1)
        × ((call m c).0.persisted ≡ note_fire m.persisted (call m c).1)
  unfolding on_activity on_ctl_request decide fire
  call_state m (activity now utc payload) = ground arith
  call_state m (ctl action utc payload) = ground arith

  run_AllDue :
      (m : WarmupModule T) (cs : List (Call T))
      → AllDue m m.tracker.last_activity_at m.last_warmup_at cs
  run_AllDue m [] = tt
  run_AllDue m (c ∷ cs) =
      let (active, last, disk) = call_state m c in
      (
        call-IsDue m c,
        subst (λ a. AllDue (call m c).0 a (note_fire m.last_warmup_at (call m c).1) cs) active
            (subst (λ l. AllDue (call m c).0 (call m c).0.tracker.last_activity_at l cs) last
              (run_AllDue (call m c).0 cs)),
      )

  -- From a start with what the file holds, over every run of activities and of requests by ctl: the
  -- overlay opens by itself only if that is enabled, the gap or a day boundary lies between it and
  -- the opening before, and there was a gap of activity unless the calendar rule is on; by request
  -- it opens only for `open`. Openings that fail for want of a payload do not count.
  pub with_config-AllDue :
      (config : WarmupConfig) (persisted : Option T) (cs : List (Call T))
      → AllDue (with_config config persisted) none persisted cs
  unfolding with_config
  with_config-AllDue config persisted cs = run_AllDue (with_config config persisted) cs
