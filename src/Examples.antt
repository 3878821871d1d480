-- ===== src/Examples.antt =====
-- The theorems at concrete inputs, and runs of the models.
mod ExprRuns
mod BarRuns
mod TrackerRuns
mod BusRuns
mod TimerRuns
mod EngineRuns
mod ModuleRuns
mod ProjectRuns
mod FrameRuns
mod CpuRuns
