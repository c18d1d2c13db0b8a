-- ===== src/Kv.antt =====
-- The clerks of the sharded key-value labs, Lab2_MapReduce/src/shardctrler and shardkv, and the
-- specification Lab2_MapReduce/src/models/kv.go.
pub mod Types
pub mod Clerks
pub mod ClerkLaws
pub mod ClerkAnswers
pub mod CtrlLaws
pub mod Model
