-- ===== src/Raft/Server.antt =====
-- The handlers and the critical sections of Lab2_MapReduce/src/raft/raft.go. A goroutine that
-- releases the lock around an RPC is the section before it and the section after it.
use tda596labs.Base.{
  ltb, leb, ◌==◌, if◌then◌else◌, replicate, Outcome, ok, ◌>>=◌, index, ℕ, ◌+◌, ◌/◌, Bool, true,
  false, not, ◌&&◌, Option, none, some, List, [], ◌∷◌,
}
use tda596labs.Raft.Types.{
  ServerState, follower, candidate, leader, Raft, RequestVoteArgs, RequestVoteReply,
  AppendEntriesArgs, AppendEntriesReply,
}

-- `Make`, for `num_peers` peers.
unfoldable pub make : ℕ → ℕ → Raft
make num_peers me = record {
  me = me;
  dead = false;
  has_received_heartbeat = false;
  server_state = follower;
  current_term = 0;
  num_peers = num_peers;
  received_votes = 0;
  voted_for = none;
  log = record { command = 0; log_term = 0; log_index = 0 } ∷ [];
  commit_index = 0;
  last_applied = 0;
  next_index = replicate num_peers 0;
  match_index = replicate num_peers 0;
}

unfoldable pub is_leader : ServerState → Bool
is_leader leader = true
is_leader candidate = false
is_leader follower = false

-- `GetState`.
unfoldable pub get_state : Raft → ℕ × Bool
get_state rf = (rf.current_term, is_leader rf.server_state)

unfoldable pub step_down : Raft → Raft
step_down rf = record rf { server_state = follower }

-- The lines of `RequestVote` for a candidate with a higher term.
unfoldable pub adopt_term : Raft → RequestVoteArgs → Raft
unfolding step_down is_leader
adopt_term rf args =
    let rf1 : Raft = record rf {
      voted_for = none;
      received_votes = 0;
      current_term = args.candidate_term;
    } in
    if ltb rf.current_term args.candidate_term
    then (if is_leader rf1.server_state then step_down rf1 else rf1)
    else rf

-- `votedFor == -1 || votedFor == id`.
unfoldable pub may_vote : Option ℕ → ℕ → Bool
may_vote none id = true
may_vote (some v) id = v == id

-- `LastLogIndex >= nextIndex[id] - 1`, over the integers.
unfoldable pub log_up_to_date : ℕ → ℕ → Bool
log_up_to_date last_log_index next = leb next (last_log_index + 1)

unfoldable pub request_vote :
    Raft → RequestVoteArgs → RequestVoteReply → Outcome (Raft × RequestVoteReply)
unfolding adopt_term may_vote log_up_to_date
request_vote rf args reply =
    let rf1 : Raft = adopt_term rf args in
    if ltb args.candidate_term rf.current_term
    then ok (rf, record { response_term = rf.current_term; vote_grandted = false })
    else (index rf1.next_index args.candidate_id >>= λ next.
        if may_vote rf1.voted_for args.candidate_id && log_up_to_date args.last_log_index next
        then ok (
          record rf1 {
            voted_for = some args.candidate_id;
            current_term = args.candidate_term;
            server_state = follower;
          },
          record reply { vote_grandted = true },
        )
        else ok (rf1, record { response_term = rf1.current_term; vote_grandted = false }))

unfoldable pub append_entries :
    Raft → AppendEntriesArgs → AppendEntriesReply → Raft × AppendEntriesReply
unfolding step_down is_leader
append_entries rf args reply =
    let rf1 : Raft = record rf { current_term = args.leader_term } in
    let rf2 : Raft = if is_leader rf1.server_state then step_down rf1 else rf1 in
    let rf3 : Raft = if ltb rf.current_term args.leader_term then rf2 else rf in
    if ltb args.leader_term rf.current_term
    then (rf, record { followers_term = rf.current_term; success = false })
    else (record rf3 { has_received_heartbeat = true }, record reply { success = true })

-- `Start`: `none` is (-1, -1, false).
unfoldable pub start : Raft → Option (ℕ × ℕ)
unfolding is_leader
start rf =
    if not (is_leader rf.server_state) then none else some (rf.commit_index + 1, rf.current_term)

unfoldable pub kill : Raft → Raft
kill rf = record rf { dead = true }

-- The first section of a round of `checkElectionTimeout`: the term that it remembers.
unfoldable pub begin_round : Raft → Raft × ℕ
begin_round rf = (record rf { has_received_heartbeat = false }, rf.current_term)

-- The second section, after the pause; the Boolean says whether every peer is asked for its vote.
unfoldable pub end_round : Raft → ℕ → Raft × Bool
unfolding is_leader
end_round rf curr_term =
    if is_leader rf.server_state
    then (rf, false)
    else if not rf.has_received_heartbeat && curr_term == rf.current_term
    then (
      record rf {
        received_votes = 1;
        current_term = rf.current_term + 1;
        voted_for = some rf.me;
        server_state = candidate;
      },
      true,
    )
    else (rf, false)

-- The arguments that `askForVote` sends.
unfoldable pub vote_args : Raft → RequestVoteArgs
vote_args rf = record {
  candidate_term = rf.current_term;
  candidate_id = rf.me;
  last_log_index = rf.commit_index;
  last_log_term = rf.last_applied;
}

-- The last section of `askForVote`.
unfoldable pub count_vote : Raft → RequestVoteReply → Raft
unfolding is_leader
count_vote rf reply =
    let rf1 : Raft = record rf { received_votes = rf.received_votes + 1 } in
    if reply.vote_grandted
    then (if ltb (rf1.num_peers / 2) rf1.received_votes && not (is_leader rf1.server_state)
        then record rf1 { server_state = leader }
        else rf1)
    else rf

-- The arguments that `sendHeartBeatToPeer` sends; a panic if the commit index is past the log.
unfoldable pub heartbeat_args : Raft → Outcome AppendEntriesArgs
heartbeat_args rf = index rf.log rf.commit_index >>= λ entry. ok (record {
  leader_term = rf.current_term;
  leader_id = rf.me;
  prev_log_index = rf.commit_index;
  prev_log_term = entry.log_term;
  entries = [];
  leader_commit_index = rf.commit_index;
})

-- The last section of `sendHeartBeatToPeer`.
unfoldable pub heartbeat_answered : Raft → AppendEntriesReply → Raft
unfolding step_down is_leader
heartbeat_answered rf reply =
    let rf1 : Raft = record rf { current_term = reply.followers_term } in
    if not reply.success then (if is_leader rf1.server_state then step_down rf1 else rf1) else rf

-- Where the wait of `askForVote` stands: still waiting, given up as killed, or past the loop.
pub data Wait : Type 0 where
  waiting gave_up got_reply : Wait

-- `for ok := send(); !ok; { … }`: the loop sends once; `killed` are the readings of `rf.killed()`
-- at the rounds so far.
unfoldable pub wait_loop : Bool → List Bool → Wait
wait_loop true killed = got_reply
wait_loop false [] = waiting
wait_loop false (dead ∷ killed) =
    let rest = wait_loop false killed in if dead then gave_up else rest
