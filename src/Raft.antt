-- ===== src/Raft.antt =====
-- One Raft peer: Lab2_MapReduce/src/raft/raft.go and persister.go.
pub mod Types
pub mod Server
pub mod Votes
pub mod Quorum
pub mod Terms
pub mod Persister
