-- ===== src/Examples/Peers.antt =====
-- Raft peers of Lab2_MapReduce/src/raft at concrete states, in a cluster of three.
use tda596labs.Base.{
  index, Returns, ℕ, ◌/◌, ◌≤◌, ◌≡◌, refl, ◌⊎◌, true, false, some, List, [], ◌∷◌, arith,
}
use tda596labs.Raft.Quorum.{votes_for, run_all, one_majority}
use tda596labs.Raft.Types.{
  ServerState, candidate, leader, Raft, RequestVoteArgs, RequestVoteReply, AppendEntriesArgs,
  AppendEntriesReply,
}
use tda596labs.Raft.Server.{make, request_vote, append_entries, count_vote, heartbeat_answered}
use tda596labs.Raft.Votes.{
  Event, requested, appended, timed_out, run, OnePerTerm, votes_once_per_term,
}
use tda596labs.Raft.Terms.{late_vote_after_append, late_refusal_second_vote}

abbrev asks_vote : ℕ → ℕ → RequestVoteArgs
asks_vote term id = record {
  candidate_term = term;
  candidate_id = id;
  last_log_index = 0;
  last_log_term = 0;
}

abbrev appends : ℕ → AppendEntriesArgs
appends term = record {
  leader_term = term;
  leader_id = 2;
  prev_log_index = 0;
  prev_log_term = 0;
  entries = [];
  leader_commit_index = 0;
}

abbrev history : List Event
history =
    timed_out 0
    ∷ requested (asks_vote 1 2)
    ∷ requested (asks_vote 2 2)
    ∷ requested (asks_vote 2 1)
    ∷ appended (appends 2)
    ∷ []

votes_once_per_term_example : Returns (run (make 3 0, []) history) (λ s. OnePerTerm s.1)
votes_once_per_term_example =
    votes_once_per_term 3 0 history (tt, (omega arith, (omega arith, (omega arith, (tt, tt)))))

abbrev no_answer : AppendEntriesReply
no_answer = record { followers_term = 0; success = false }

-- Peer 0 in term 4 with two votes, in a state that is given.
abbrev peer : ServerState → Raft
peer state = record {
  me = 0;
  dead = false;
  has_received_heartbeat = false;
  server_state = state;
  current_term = 4;
  num_peers = 3;
  received_votes = 1;
  voted_for = some 0;
  log = [];
  commit_index = 0;
  last_applied = 0;
  next_index = 0 ∷ 0 ∷ 0 ∷ [];
  match_index = 0 ∷ 0 ∷ 0 ∷ [];
}

abbrev granted : RequestVoteReply
granted = record { response_term = 4; vote_grandted = true }

late_vote_after_append_example :
    ((append_entries (peer candidate) (appends 5) no_answer).1.success ≡ true)
    × ((count_vote (append_entries (peer candidate) (appends 5) no_answer).0 granted).server_state
        ≡ leader)
    × ((count_vote (append_entries (peer candidate) (appends 5) no_answer).0 granted).current_term
        ≡ 5)
late_vote_after_append_example =
    late_vote_after_append (peer candidate) (appends 5) no_answer granted (λ e. cc) (omega arith)
      refl (omega arith)

abbrev no_vote : RequestVoteReply
no_vote = record { response_term = 0; vote_grandted = false }

abbrev refusal : AppendEntriesReply
refusal = record { followers_term = 3; success = false }

late_refusal_second_vote_example :
    Returns (request_vote (peer leader) (asks_vote 5 1) no_vote) (λ r.
      (r.1.vote_grandted ≡ true)
      × (r.0.voted_for ≡ some 1)
      × (r.0.current_term ≡ 5)
      × Returns
          (request_vote (heartbeat_answered r.0 refusal) (asks_vote 5 2) no_vote)
          (λ r'. (r'.1.vote_grandted ≡ true) × (r'.0.voted_for ≡ some 2) × (r'.0.current_term ≡ 5)))
unfolding index
late_refusal_second_vote_example =
    late_refusal_second_vote (peer leader) (asks_vote 5 1) (asks_vote 5 2) refusal no_vote 0 0
      (omega arith) refl refl refl (omega arith) (omega arith) refl (omega arith)

one_majority_example :
    Returns
      (run_all 3 0 (history ∷ (requested (asks_vote 1 0) ∷ []) ∷ [] ∷ []))
      (λ logs. (votes_for 1 0 logs ≤ 3 / 2) ⊎ (votes_for 1 2 logs ≤ 3 / 2))
one_majority_example =
    one_majority 3 1 0 2 (history ∷ (requested (asks_vote 1 0) ∷ []) ∷ [] ∷ []) refl
      ((tt, (omega arith, (omega arith, (omega arith, (tt, tt))))), ((omega arith, tt), (tt, tt)))
      (λ e. absurd (omega arith))
