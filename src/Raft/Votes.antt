-- ===== src/Raft/Votes.antt =====
-- A peer votes once in a term: `RequestVote`, `AppendEntries`, vote counting and the timeout of
-- Lab2_MapReduce/src/raft/raft.go.
use tda596labs.Base.{
  ltb, ◌==◌, Bool-cases, length, length-replicate, All, Outcome, ok, ◌>>=◌, index_ok, Returns,
  then_returns, returns_map, ℕ, ◌+◌, ◌<◌, ◌≡◌, refl, ap, ◌∙◌, ◌≢◌, ◌⊎◌, inl, inr, Bool, true, false,
  not, ◌&&◌, Option, none, some, List, [], ◌∷◌, arith,
}
use tda596labs.Raft.Types.{
  candidate, Raft, RequestVoteArgs, RequestVoteReply, AppendEntriesArgs, AppendEntriesReply,
}
use tda596labs.Raft.Server.{
  make, is_leader, adopt_term, may_vote, log_up_to_date, request_vote, append_entries, end_round,
  count_vote,
}

-- What reaches a peer: a vote request, an append, the answer to a vote request of its own, or the
-- end of a round of `checkElectionTimeout` that began in the term given.
pub data Event : Type 0 where
  requested : RequestVoteArgs → Event
  appended : AppendEntriesArgs → Event
  counted : RequestVoteReply → Event
  timed_out : ℕ → Event

-- The votes that a peer has given, newest first: term and candidate, its votes for itself included.
abbrev pub VoteLog : Type 0
VoteLog = List (ℕ × ℕ)

abbrev record_vote : Bool → ℕ → ℕ → VoteLog → VoteLog
record_vote true term id votes = (term, id) ∷ votes
record_vote false term id votes = votes

unfoldable pub step : Raft × VoteLog → Event → Outcome (Raft × VoteLog)
step (rf, votes) (requested args) =
    request_vote rf args (record { response_term = 0; vote_grandted = false }) >>= λ r.
    ok (r.0, record_vote r.1.vote_grandted args.candidate_term args.candidate_id votes)
step (rf, votes) (appended args) =
    ok ((append_entries rf args (record { followers_term = 0; success = false })).0, votes)
step (rf, votes) (counted reply) = ok (count_vote rf reply, votes)
step (rf, votes) (timed_out curr_term) =
    let r = end_round rf curr_term in ok (r.0, record_vote r.1 r.0.current_term rf.me votes)

unfoldable pub run : Raft × VoteLog → List Event → Outcome (Raft × VoteLog)
run s [] = ok s
run s (e ∷ es) = step s e >>= λ s'. run s' es

-- A vote lies in an earlier term, or is the vote that the peer holds in its current one.
abbrev Held : Raft → ℕ × ℕ → Type 0
Held rf g = (g.0 < rf.current_term) ⊎ ((g.0 ≡ rf.current_term) × (rf.voted_for ≡ some g.1))

-- Two votes of one term went to one candidate.
abbrev pub Agree : ℕ × ℕ → ℕ × ℕ → Type 0
Agree g h = (h.0 ≢ g.0) ⊎ (h.1 ≡ g.1)

abbrev pub OnePerTerm : VoteLog → Type 0
OnePerTerm [] = Unit
OnePerTerm (g ∷ votes) = All (Agree g) votes × OnePerTerm votes

record VoteInv (n : ℕ) (s : Raft × VoteLog) : Type 0 where
  peers : length s.0.next_index ≡ n
  held : All (Held s.0) s.1
  unique : OnePerTerm s.1

-- Held votes stay held when the term rises, or when term and vote stay.
Held-later :
    (rf rf' : Raft) (votes : VoteLog)
    → (rf.current_term < rf'.current_term)
      ⊎ ((rf'.current_term ≡ rf.current_term) × (rf'.voted_for ≡ rf.voted_for))
    → All (Held rf) votes
    → All (Held rf') votes
Held-later rf rf' [] h v = tt
Held-later rf rf' (g ∷ votes) h v = (ground (arith, h, v.0), Held-later rf rf' votes h v.1)

-- A vote of a later term, or a first vote, or the vote held already, agrees with all before it, and
-- all are held by the state after it.
Held-vote :
    (rf rf' : Raft) (id : ℕ) (votes : VoteLog)
    → rf'.voted_for ≡ some id
    → (rf.current_term < rf'.current_term)
      ⊎ ((rf'.current_term ≡ rf.current_term) × ((rf.voted_for ≡ none) ⊎ (rf.voted_for ≡ some id)))
    → All (Held rf) votes
    → All (Held rf') votes × All (Agree (rf'.current_term, id)) votes
Held-vote rf rf' id [] e h v = (tt, tt)
Held-vote rf rf' id (g ∷ votes) e h v =
    let (a, b) = Held-vote rf rf' id votes e h v.1 in
    ((ground (arith, e, h, v.0), a), (ground (arith, e, h, v.0), b))

abbrev pub InRange : ℕ → Event → Type 0
InRange n (requested args) = args.candidate_id < n
InRange n _ = Unit

-- What `RequestVote` can do: it refuses, or it grants the vote.
abbrev Refused : Raft → Raft × RequestVoteReply → Type 0
Refused rf r =
    (r.1.vote_grandted ≡ false)
    × (r.0.next_index ≡ rf.next_index)
    × ((rf.current_term < r.0.current_term)
        ⊎ ((r.0.current_term ≡ rf.current_term) × (r.0.voted_for ≡ rf.voted_for)))

abbrev Granted : Raft → RequestVoteArgs → Raft × RequestVoteReply → Type 0
Granted rf args r =
    (r.1.vote_grandted ≡ true)
    × (r.0.next_index ≡ rf.next_index)
    × (r.0.current_term ≡ args.candidate_term)
    × (r.0.voted_for ≡ some args.candidate_id)
    × ((rf.current_term < r.0.current_term)
        ⊎ ((r.0.current_term ≡ rf.current_term)
            × ((rf.voted_for ≡ none) ⊎ (rf.voted_for ≡ some args.candidate_id))))

adopt_next : (rf : Raft) (args : RequestVoteArgs) → (adopt_term rf args).next_index ≡ rf.next_index
unfolding adopt_term
adopt_next rf args = ground arith

adopt_cases :
    (rf : Raft) (args : RequestVoteArgs)
    → ltb args.candidate_term rf.current_term ≡ false
    → ((adopt_term rf args).current_term ≡ args.candidate_term)
      × (((rf.current_term < args.candidate_term) × ((adopt_term rf args).voted_for ≡ none))
          ⊎ ((rf.current_term ≡ args.candidate_term)
              × ((adopt_term rf args).voted_for ≡ rf.voted_for)))
unfolding adopt_term
adopt_cases rf args h = ground arith

may_vote_cases : (v : Option ℕ) (id : ℕ) → may_vote v id ≡ true → (v ≡ none) ⊎ (v ≡ some id)
unfolding may_vote
may_vote_cases none id h = inl refl
may_vote_cases (some w) id h = inr (ground arith)

request_vote_lem :
    (rf : Raft) (args : RequestVoteArgs) (reply : RequestVoteReply)
    → args.candidate_id < length rf.next_index
    → Returns (request_vote rf args reply) (λ r. Refused rf r ⊎ Granted rf args r)
unfolding request_vote
request_vote_lem rf args reply h =
    let (next, e, _) =
      index_ok (adopt_term rf args).next_index args.candidate_id (rw (adopt_next rf args) h) in
    let next_kept = adopt_next rf args in
    elim (Bool-cases (ltb args.candidate_term rf.current_term)) [
      | inl b ↦ simp b (inl (refl, refl, inr (refl, refl)))
      | inr b ↦
          elim (Bool-cases (
            may_vote (adopt_term rf args).voted_for args.candidate_id
            && log_up_to_date args.last_log_index next)) [
              | inl m ↦
                  simp (b, e, m)
                    (inr (
                      ground (
                        arith,
                        next_kept,
                        adopt_cases rf args b,
                        may_vote_cases (adopt_term rf args).voted_for args.candidate_id,
                      )))
              | inr m ↦ simp (b, e, m) (inl (ground (arith, next_kept, adopt_cases rf args b)))
            ]
    ]

module _ {n : ℕ} where
  request-VoteInv :
      (rf : Raft) (votes : VoteLog) (args : RequestVoteArgs)
      → VoteInv n (rf, votes)
      → args.candidate_id < n
      → Returns (step (rf, votes) (requested args)) (VoteInv n)
  unfolding step
  request-VoteInv rf votes args v h =
      then_returns (VoteInv n)
        (request_vote rf args (record { response_term = 0; vote_grandted = false })) _
        (request_vote_lem rf args (record { response_term = 0; vote_grandted = false })
          (omega (arith, v.peers)))
        after
    where
      after :
          (r : Raft × RequestVoteReply)
          → Refused rf r ⊎ Granted rf args r
          → VoteInv n
              (r.0, record_vote r.1.vote_grandted args.candidate_term args.candidate_id votes)
      after r (inl (b, k, c)) = rw b (record {
        peers = ap length k ∙ v.peers;
        held = Held-later rf r.0 votes c v.held;
        unique = v.unique;
      })
      after r (inr (b, k, t, f, c)) =
          let (held, agree) = Held-vote rf r.0 args.candidate_id votes f c v.held in
          rw (b, ← t)
            (record {
              peers = ap length k ∙ v.peers;
              held = (inr (refl, f), held);
              unique = (agree, v.unique);
            })

  step-VoteInv :
      (s : Raft × VoteLog) (e : Event) → VoteInv n s → InRange n e → Returns (step s e) (VoteInv n)
  unfolding step append_entries end_round
  step-VoteInv (rf, votes) (requested args) v h = request-VoteInv rf votes args v h
  step-VoteInv (rf, votes) (appended args) v h =
      let t : Raft × AppendEntriesReply =
        append_entries rf args (record { followers_term = 0; success = false }) in
      record {
        peers = ground (arith, v.peers);
        held = Held-later rf t.0 votes (ground arith) v.held;
        unique = v.unique;
      }
  step-VoteInv (rf, votes) (counted reply) v h = record {
    peers = unfold count_vote in ground (arith, v.peers);
    held = Held-later rf (count_vote rf reply) votes (unfold count_vote in ground arith) v.held;
    unique = v.unique;
  }
  step-VoteInv (rf, votes) (timed_out curr_term) v h =
      elim (Bool-cases (is_leader rf.server_state)) [
        | inl e ↦ simp e v
        | inr e ↦
            elim (Bool-cases (not rf.has_received_heartbeat && curr_term == rf.current_term)) [
              | inr d ↦ simp (e, d) v
              | inl d ↦
                  let rf' : Raft = record rf {
                    received_votes = 1;
                    current_term = rf.current_term + 1;
                    voted_for = some rf.me;
                    server_state = candidate;
                  } in
                  let (held, agree) =
                    Held-vote rf rf' rf.me votes refl (inl (omega arith)) v.held in
                  simp (e, d)
                    (record {
                      peers = v.peers;
                      held = (inr (refl, refl), held);
                      unique = (agree, v.unique);
                    })
            ]
      ]

  run-VoteInv :
      (s : Raft × VoteLog) (es : List Event)
      → VoteInv n s
      → All (InRange n) es
      → Returns (run s es) (VoteInv n)
  unfolding run
  run-VoteInv s [] v h = v
  run-VoteInv s (e ∷ es) v h =
      then_returns (VoteInv n) (step s e) (λ s'. run s' es) (step-VoteInv s e v h.0)
        (λ s' v'. run-VoteInv s' es v' h.1)

make-VoteInv : (n me : ℕ) → VoteInv n (make n me, [])
unfolding make
make-VoteInv n me = record { peers = length-replicate n 0; held = tt; unique = tt }

-- Let a new peer of `n` receive any vote requests from peers of the cluster, any appends, any answers
-- to its own vote requests and any election timeouts, in any order. Then no handler panics, and of the votes that it gives, its
-- votes for itself included, any two of one term go to one candidate.
pub votes_once_per_term :
    (n me : ℕ) (es : List Event)
    → All (InRange n) es
    → Returns (run (make n me, []) es) (λ s. OnePerTerm s.1)
votes_once_per_term n me es h =
    returns_map _ (run (make n me, []) es) (run-VoteInv (make n me, []) es (make-VoteInv n me) h)
      (λ s v. v.unique)
