-- ===== src/Reconciler.antt =====
-- reconciler/: the read-only observer of drift between sources, and its local telemetry.
pub mod Sources
pub mod Drift
pub mod Telemetry
pub mod Quarantine
pub mod Agreement
pub mod Counts
pub mod Identifiers
