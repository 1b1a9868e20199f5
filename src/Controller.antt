-- ===== src/Controller.antt =====
-- controller.py: the supervision of one hotkey over the rounds.
pub mod Setup
pub mod Rounds
pub mod Local
pub mod Verify
pub mod Reconcile
pub mod Submit
pub mod Cycle
pub mod Failure
pub mod Quiet
pub mod ReadOnly
pub mod Latched
pub mod Harmless
pub mod Loud
pub mod LoudCycle
pub mod Publish
pub mod Returned
pub mod Evidence
pub mod Marked
pub mod Proved
pub mod Reconciled
pub mod Run
pub mod Exits
pub mod Stops
pub mod Refused
pub mod RunKeeps
pub mod RunSafety
pub mod RunEnds
