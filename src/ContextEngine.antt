-- ===== src/ContextEngine.antt =====
-- crates/levshell-modules/src/context_engine.rs: the module that feeds signals to the cascade and
-- publishes what comes out. State has the module and `resolve_and_publish`, Actions the handling of
-- events, and the other children what holds of them.
pub mod State
pub mod Widgets
pub mod Actions
pub mod Follow
pub mod Shown
pub mod Told
pub mod Runs
pub mod Profiles
