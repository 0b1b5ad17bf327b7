-- ===== src/Door.antt =====
-- The gate (store/gate.py) in front of `FakeBackend` (store/fake.py): whole calls of `persist`, and
-- histories in which every write goes through it.
pub mod History
pub mod Recovery
