-- ===== src/Tests.antt =====
-- Runs of the theorems at concrete values.
mod WindowRuns
mod MessageRuns
mod HealthRuns
mod DecisionRuns
mod ConfigRuns
mod RouteRuns
mod ApplyRuns
mod DaemonRuns
mod OutsideRuns
mod StateRuns
mod ProbeRuns
mod KernelRuns
mod LifeRuns
