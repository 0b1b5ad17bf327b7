-- ===== src/Gate.antt =====
-- store/gate.py: the one write door.
pub mod Marker
pub mod Regex
pub mod Patterns
pub mod Platform
pub mod Assignments
pub mod Scan
pub mod Keys
pub mod Generation
pub mod Objects
pub mod Persist
pub mod Reconcile
pub mod Admission
pub mod Door
pub mod Resolution
pub mod Headers
pub mod Detection
pub mod Paths
