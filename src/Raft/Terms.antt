-- ===== src/Raft/Terms.antt =====
-- Terms and leadership in Lab2_MapReduce/src/raft/raft.go.
use tda596labs.Base.{
  ltb, leb, ◌==◌, Bool-cases, ok, index, Returns, returns_map, ℕ, ◌+◌, ◌/◌, ◌≤◌, ◌<◌, ◌≡◌, refl, ap,
  ◌∙◌, ◌≢◌, ◌⊎◌, inl, inr, Bool, true, false, not, ◌&&◌, some, List, [], ◌∷◌, arith,
}
use tda596labs.Raft.Types.{
  candidate, leader, Raft, RequestVoteArgs, RequestVoteReply, AppendEntriesArgs, AppendEntriesReply,
}
use tda596labs.Raft.Server.{
  is_leader, adopt_term, may_vote, log_up_to_date, request_vote, append_entries, end_round,
  count_vote, heartbeat_answered, got_reply, wait_loop,
}

-- Neither `append_entries` nor the end of an election round lowers the term. `append_entries`
-- answers a message of an older term with a refusal that carries the current term and changes
-- nothing, and it refuses no other message.
pub terms_grow :
    (rf : Raft) (args : AppendEntriesArgs) (reply : AppendEntriesReply) (curr_term : ℕ)
    → (rf.current_term ≤ (append_entries rf args reply).0.current_term)
      × (rf.current_term ≤ (end_round rf curr_term).0.current_term)
      × ((rf.current_term ≤ args.leader_term)
          ⊎ (append_entries rf args reply
              ≡ (rf, record { followers_term = rf.current_term; success = false })))
      × (((append_entries rf args reply).1.success ≡ true) ⊎ (args.leader_term < rf.current_term))
unfolding append_entries end_round
terms_grow rf args reply curr_term = (ground arith, ground arith, ground arith, ground arith)

-- A peer runs as a candidate at the end of a round exactly when it is no leader, heard no heartbeat
-- and is still in the term in which the round began; then it is in the next term, has voted for
-- itself and has one vote, and otherwise nothing has changed.
pub end_round_lem :
    (rf : Raft) (curr_term : ℕ)
    → ((end_round rf curr_term).1 ≡ (
        not (is_leader rf.server_state)
        && not rf.has_received_heartbeat
        && curr_term == rf.current_term))
      × (((end_round rf curr_term).1 ≡ false) × ((end_round rf curr_term).0 ≡ rf)
          ⊎ ((end_round rf curr_term).1 ≡ true)
            × ((end_round rf curr_term).0.current_term ≡ rf.current_term + 1)
            × ((end_round rf curr_term).0.voted_for ≡ some rf.me)
            × ((end_round rf curr_term).0.received_votes ≡ 1)
            × ((end_round rf curr_term).0.server_state ≡ candidate))
unfolding end_round
end_round_lem rf curr_term = (ground arith, ground arith)

-- A peer can come to lead in the term of another leader: if a peer that is no leader accepts an
-- append of a higher term, and has the votes of half of the peers from an earlier round, then one
-- more late vote makes it leader in the term of that append.
pub late_vote_after_append :
    (rf : Raft) (args : AppendEntriesArgs) (reply : AppendEntriesReply) (vote : RequestVoteReply)
    → rf.server_state ≢ leader
    → rf.current_term < args.leader_term
    → vote.vote_grandted ≡ true
    → rf.num_peers / 2 ≤ rf.received_votes
    → ((append_entries rf args reply).1.success ≡ true)
      × ((count_vote (append_entries rf args reply).0 vote).server_state ≡ leader)
      × ((count_vote (append_entries rf args reply).0 vote).current_term ≡ args.leader_term)
unfolding append_entries count_vote
late_vote_after_append rf args reply vote h t g b = (ground arith, ground arith, ground arith)

-- A request of a newer term, from a peer of the cluster with a recent enough log, is granted.
newer_granted :
    (rf : Raft) (args : RequestVoteArgs) (reply : RequestVoteReply) (n : ℕ)
    → rf.current_term < args.candidate_term
    → index rf.next_index args.candidate_id ≡ ok n
    → n ≤ args.last_log_index + 1
    → Returns (request_vote rf args reply) (λ r.
      (r.1.vote_grandted ≡ true)
      × (r.0.voted_for ≡ some args.candidate_id)
      × (r.0.current_term ≡ args.candidate_term)
      × (r.0.next_index ≡ rf.next_index))
unfolding request_vote adopt_term may_vote log_up_to_date
newer_granted rf args reply n h e l =
    let newer : ltb rf.current_term args.candidate_term ≡ true = ground arith in
    let not_older : ltb args.candidate_term rf.current_term ≡ false = ground arith in
    let recent : leb n (args.last_log_index + 1) ≡ true = ground arith in
    elim (Bool-cases (is_leader rf.server_state)) [
      | inl d ↦ rw (not_older, newer, d, e, recent) (refl, refl, refl, refl)
      | inr d ↦ rw (not_older, newer, d, e, recent) (refl, refl, refl, refl)
    ]

heartbeat_answered_lem :
    (rf : Raft) (reply : AppendEntriesReply)
    → reply.success ≡ false
    → ((heartbeat_answered rf reply).current_term ≡ reply.followers_term)
      × ((heartbeat_answered rf reply).next_index ≡ rf.next_index)
unfolding heartbeat_answered
heartbeat_answered_lem rf reply h = (ground (arith, h), ground (arith, h))

-- A peer can vote for two candidates in one term: it votes for one in a newer term, then takes a
-- refusal of a heartbeat that carries a lower term, and lowers its own term to that; the request of
-- another candidate in the same term is then granted as well. Both candidates are peers of the
-- cluster with logs that are recent enough.
pub late_refusal_second_vote :
    (rf : Raft) (one other : RequestVoteArgs) (refusal : AppendEntriesReply)
    (reply : RequestVoteReply) (n n' : ℕ)
    → rf.current_term < one.candidate_term
    → other.candidate_term ≡ one.candidate_term
    → index rf.next_index one.candidate_id ≡ ok n
    → index rf.next_index other.candidate_id ≡ ok n'
    → n ≤ one.last_log_index + 1
    → n' ≤ other.last_log_index + 1
    → refusal.success ≡ false
    → refusal.followers_term < one.candidate_term
    → Returns (request_vote rf one reply) (λ r.
      (r.1.vote_grandted ≡ true)
      × (r.0.voted_for ≡ some one.candidate_id)
      × (r.0.current_term ≡ one.candidate_term)
      × Returns (request_vote (heartbeat_answered r.0 refusal) other reply) (λ r'.
        (r'.1.vote_grandted ≡ true)
        × (r'.0.voted_for ≡ some other.candidate_id)
        × (r'.0.current_term ≡ one.candidate_term)))
late_refusal_second_vote rf one other refusal reply n n' h t e e' l l' f b =
    returns_map _ (request_vote rf one reply) (newer_granted rf one reply n h e l) (λ r v.
      let (granted, voted, term, kept) = v in
      let (lowered, kept') = heartbeat_answered_lem r.0 refusal f in
      (
        granted,
        voted,
        term,
        returns_map _ (request_vote (heartbeat_answered r.0 refusal) other reply)
            (newer_granted (heartbeat_answered r.0 refusal) other reply n' (omega arith)
              (ap (λ l. index l other.candidate_id) (kept' ∙ kept) ∙ e') l')
            (λ r' w. (w.0, w.1, w.2 ∙ t)),
      ))

-- If the first send fails, no number of further rounds ever gets to the reply: the loop sends once.
pub failed_send_never_counts : (killed : List Bool) → wait_loop false killed ≢ got_reply
unfolding wait_loop
failed_send_never_counts [] = λ e. cc
failed_send_never_counts (true ∷ killed) = λ e. cc
failed_send_never_counts (false ∷ killed) = failed_send_never_counts killed
