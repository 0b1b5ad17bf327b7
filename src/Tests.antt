-- ===== src/Tests.antt =====
-- Runs of the modelled code, and its theorems at concrete inputs.
mod Samples
mod Scans
mod FakeRuns
mod GateRuns
mod RecoveryRuns
mod LocalRuns
mod PathRuns
mod MigrateRuns
mod ReconcilerRuns
mod ServerRuns
