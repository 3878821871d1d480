-- ===== src/Lib.antt =====
-- levshell: the context engine of the desktop shell, and the state machines around it.
--
-- The daemon decides how prominently each widget of the bar is shown. Modules publish typed
-- signals; rules, written in a small expression language, ask for a level when their expression
-- holds of the signals; the cascade takes the rules' votes, the active profile, the room on the
-- bar and the user's overrides and settles on a level for every widget; the debouncer between
-- the cascade and the bar delays a change until it has been asked for long enough. Modules talk
-- over an event bus. Smaller machines stand beside them: the tracker that activates a profile
-- when a predicate has held for its dwell time, the tracker by which a widget climbs to the
-- critical level one step at a time, and the timer of focus sessions. The context engine owns
-- the rules' inputs, the cascade and the debouncer, and tells the shell what changed. Further
-- modules listen on the bus: the notifications, which the session timer can mute; the report on
-- an absence from a workspace; and the overlay of the morning. The registry of projects keeps
-- the time that each project is in focus, and the ideation engine draws its nudges from those
-- projects.
--
-- The parts, and the files that model them:
--   * Prominence: the levels of crates/levshell-ipc/src/messages.rs.
--   * Signals: crates/levshell-context/src/signals.rs, `SignalContext` with `set`, `remove`,
--     `get`.
--   * Expr: crates/levshell-context/src/expr.rs. Expr/Syntax has its types and the errors of
--     error.rs, Expr/Lexer `tokenize`, Expr/Parser `parse_expression` and the methods of `Parser`,
--     Expr/Eval `evaluate` and its helpers. Expr/Print is a printer that the program does not
--     have, by which the parser is specified.
--   * Rules: crates/levshell-context/src/rules.rs, `CompiledRule::evaluate` and the profiles.
--   * Cascade: crates/levshell-context/src/cascade.rs, `resolve_layout` with its five steps.
--   * Hysteresis: crates/levshell-context/src/hysteresis.rs, `observe` and `force_commit`.
--     Hysteresis/Widget has a machine for one widget, a specification of `observe` and not a
--     translation. Hysteresis/Machine and Hysteresis/Changes have its runs, Hysteresis/Runs and
--     Hysteresis/Timing those of `observe`.
--   * Focus: crates/levshell-modules/src/focus/tracker.rs, `FocusModeTracker::tick`; Focus/Reached
--     has its runs; Focus/Module has mod.rs beside it, which evaluates the predicates and publishes
--     the actions.
--   * Framing: crates/levshell-ipc/src/framing.rs, `read_frame` and `write_frame`.
--   * Escalation: crates/levshell-modules/src/escalation.rs, `EscalationTracker::step`.
--   * Bus: crates/levshell-core/src/bus.rs, `EventBus::subscribe` and `publish`; Bus/Events has
--     the events and their kinds.
--   * SessionTimer: crates/levshell-modules/src/session_timer.rs, the work and break intervals.
--   * ContextEngine: crates/levshell-modules/src/context_engine.rs. ContextEngine/State has
--     `resolve_and_publish`, ContextEngine/Actions `apply_event` and `apply_profile_action`,
--     ContextEngine/Widgets `default_widgets`; the messages offered to the shell are the output.
--   * Notifications: crates/levshell-modules/src/notifications.rs, `on_event`.
--   * Interruption: crates/levshell-modules/src/interruption/mod.rs, `apply_focus`.
--   * Warmup: crates/levshell-modules/src/warmup, `decide` of trigger.rs and `fire` of mod.rs.
--   * Projects: the projects of crates/levshell-data/src/models.rs; Projects/Registry has
--     crates/levshell-projects/src/registry.rs, `handle_workspace_change` and the lookups.
--   * Ideation: crates/levshell-modules/src/ideation, `NudgeSelector::select` of selector.rs.
--   * Telemetry: crates/levshell-modules/src/telemetry/cpu.rs, `usage_percent` and `tick`, from a
--     sample on.
--   * Examples: runs at concrete inputs.
--   * Prelude: the shared names, byte strings, and association lists for hash maps.
--
-- Conventions. A method on `&mut self` is a function that returns the new state. A string is
-- the list of its UTF-8 bytes. A HashMap is an association list; where the program walks one,
-- the order is the list's, any order. An Instant and a Duration are natural numbers of one
-- unit, and their subtraction stops at 0, as `saturating_duration_since` does; the panic on an
-- overflow of `Instant + Duration` is left out. u32 sums saturate at 2^32 - 1. A panic of
-- `expect` is `none`. f64 is a parameter: its comparisons and its `parse` come in the record
-- `Numbers`, what the interface scale needs of it in `Scale`, what the selector needs in
-- `Floats`, the percentages in `Percents`. The channels of tokio are a parameter of the bus;
-- the wall clock of chrono and the generator of rand (`Chrono`, `Rng`, with rand's promises in
-- `IsRng`) are parameters too, and so are the reader and the writer of the frames, with tokio's
-- promises in `IsReader` and `IsWriter`. The locks are left out.
--
-- Bounds. The recursive descent of the parser runs on a bound of six per token and four: a
-- token is read at the cost of at most six calls. `exhausted` is the result when the bound is
-- too small. The demotion loop of the cascade is given six rounds, as many as there are levels.
--
-- Not modelled: the daemon's start-up and command line tool, sockets and their server, the data
-- store (SQL), the configuration files, the adapters to other services, and the modules that
-- move data between a service and a widget; they are I/O. The module runner, the payloads of
-- the overlay and the trial that precedes a nudge are left to a later extension.
pub mod Prelude
pub mod Prominence
pub mod Signals
pub mod Expr
pub mod Rules
pub mod Cascade
pub mod Hysteresis
pub mod Focus
pub mod Escalation
pub mod Bus
pub mod Framing
pub mod SessionTimer
pub mod ContextEngine
pub mod Notifications
pub mod Interruption
pub mod Warmup
pub mod Projects
pub mod Ideation
pub mod Telemetry
pub mod Examples
