-- ===== src/Telemetry.antt =====
-- The telemetry modules of crates/levshell-modules/src/telemetry.
pub mod Cpu
