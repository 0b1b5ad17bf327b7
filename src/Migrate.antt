-- ===== src/Migrate.antt =====
-- migrate/migrate.py: `migrate`, which copies a store to another backend.
pub mod Store
pub mod LeaseDoc
pub mod Lease
pub mod Acquire
pub mod Report
pub mod Passes
pub mod Run
pub mod Keeping
pub mod Acquiring
pub mod Scanned
pub mod Copied
pub mod Passed
pub mod Views
pub mod Delivered
pub mod Outcome
pub mod Safety
pub mod OnFake
pub mod Exclusive
