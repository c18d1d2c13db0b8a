-- ===== src/Coordinator.antt =====
-- The MapReduce coordinator: Lab2_MapReduce/src/mr/coordinator.go, with the messages of
-- Lab2_MapReduce/src/mr/rpc.go. Each RPC handler holds `CoordMutex` from its first line to its
-- last, so a run is a sequence of whole handlers.
pub mod Method
pub mod Types
pub mod Jobs
pub mod Handlers
pub mod Bounds
pub mod Answers
pub mod Dispatch
pub mod Tables
pub mod Runs
pub mod Invariant
pub mod Safety
pub mod Recovery
pub mod Retries
pub mod Replies
pub mod Spec
pub mod Observed
pub mod Moves
pub mod Refines
