-- ===== src/Coordinator.antt =====
-- coordinator.py: the round that the coordinator serves is accepted or refused.
pub mod Fields
pub mod Signed
pub mod Round
pub mod History
pub mod Resolve
pub mod Sound
pub mod Strict
pub mod Follow
pub mod Profiled
pub mod Accept
