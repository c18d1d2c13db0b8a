-- ===== src/Raft/Types.antt =====
-- The state of a Raft peer and its messages: Lab2_MapReduce/src/raft/raft.go. Terms, indices and
-- ids are natural numbers; the vote -1 is `none`. The peers' end points, the persister and the
-- apply channel are left out: the handlers that are written do not use them.
use tda596labs.Base.{ℕ, Bool, Option, List}

pub data ServerState : Type 0 where
  follower candidate leader : ServerState

pub record LogEntry : Type 0 where
  pub command : ℕ
  pub log_term : ℕ
  pub log_index : ℕ

pub record Raft : Type 0 where
  pub me : ℕ
  pub dead : Bool
  pub has_received_heartbeat : Bool
  pub server_state : ServerState
  pub current_term : ℕ
  pub num_peers : ℕ
  pub received_votes : ℕ
  pub voted_for : Option ℕ
  pub log : List LogEntry
  pub commit_index : ℕ
  pub last_applied : ℕ
  pub next_index : List ℕ
  pub match_index : List ℕ

pub record RequestVoteArgs : Type 0 where
  pub candidate_term : ℕ
  pub candidate_id : ℕ
  pub last_log_index : ℕ
  pub last_log_term : ℕ

pub record RequestVoteReply : Type 0 where
  pub response_term : ℕ
  pub vote_grandted : Bool

pub record AppendEntriesArgs : Type 0 where
  pub leader_term : ℕ
  pub leader_id : ℕ
  pub prev_log_index : ℕ
  pub prev_log_term : ℕ
  pub entries : List LogEntry
  pub leader_commit_index : ℕ

pub record AppendEntriesReply : Type 0 where
  pub followers_term : ℕ
  pub success : Bool
