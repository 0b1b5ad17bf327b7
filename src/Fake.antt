-- ===== src/Fake.antt =====
-- store/fake.py: `FakeBackend`, the in-memory backend with injected faults. A method is a function
-- of the state; the clocks and the fresh token that it reads are arguments.
pub mod State
pub mod Write
pub mod Lease
pub mod Effect
pub mod Outcomes
pub mod Settle
pub mod Steps
pub mod Invariant
pub mod Superseded
