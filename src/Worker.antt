-- ===== src/Worker.antt =====
-- The MapReduce worker: Lab2_MapReduce/src/mr/worker.go.
pub mod Tasks
pub mod Buckets
pub mod Groups
pub mod Sequential
pub mod Agreement
pub mod Process
pub mod System
pub mod Shuffle
pub mod Tables
pub mod Lone
pub mod Turns
pub mod LoneTurns
pub mod LoneRun
pub mod LoneResults
pub mod Spread
pub mod Apps
pub mod AppLaws
pub mod IndexLaws
