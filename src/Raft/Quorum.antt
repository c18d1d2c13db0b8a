-- ===== src/Raft/Quorum.antt =====
-- No two candidates get a majority of a cluster's votes in one term: the peers of
-- Lab2_MapReduce/src/raft/raft.go, each with its own history.
use tda596labs.Base.{
  ◌==◌, if◌then◌else◌, length, All, Outcome, ok, ◌>>=◌, Returns, then_returns, returns_map, ℕ, suc,
  ◌+◌, ◌/◌, ◌≤◌, ◌≡◌, refl, ◌≢◌, ◌⊎◌, Bool, false, ◌&&◌, ◌||◌, List, [], ◌∷◌, arith,
}
use tda596labs.Raft.Server.{make}
use tda596labs.Raft.Votes.{Event, VoteLog, run, Agree, OnePerTerm, InRange, votes_once_per_term}

-- The peer has voted for the candidate in the term.
abbrev pub has_vote : ℕ → ℕ → VoteLog → Bool
has_vote term id [] = false
has_vote term id (vote ∷ votes) = (vote.0 == term && vote.1 == id) || has_vote term id votes

-- The number of peers that have voted for the candidate in the term.
abbrev pub votes_for : ℕ → ℕ → List VoteLog → ℕ
votes_for term id [] = 0
votes_for term id (log ∷ logs) =
    let rest = votes_for term id logs in if has_vote term id log then suc rest else rest

-- Peers `me`, `me + 1`, … of a cluster of `n`, each after its own history: the votes that they gave.
unfoldable pub run_all : ℕ → ℕ → List (List Event) → Outcome (List VoteLog)
run_all n me [] = ok []
run_all n me (history ∷ histories) = do
  s ← run (make n me, []) history
  logs ← run_all n (suc me) histories
  ok (s.1 ∷ logs)

agreed-has_vote :
    (g : ℕ × ℕ) (votes : VoteLog) (term id : ℕ)
    → All (Agree g) votes
    → g.0 ≡ term
    → g.1 ≢ id
    → has_vote term id votes ≡ false
agreed-has_vote g [] term id h t n = refl
agreed-has_vote g (v ∷ votes) term id h t n =
    ground (arith, h.0, agreed-has_vote g votes term id h.1 t n)

one_candidate :
    (term a b : ℕ) (votes : VoteLog)
    → OnePerTerm votes
    → a ≢ b
    → (has_vote term a votes && has_vote term b votes) ≡ false
one_candidate term a b [] h n = refl
one_candidate term a b (v ∷ votes) h n = ground (
  arith,
  one_candidate term a b votes h.1 n,
  agreed-has_vote v votes term a h.0,
  agreed-has_vote v votes term b h.0,
)

votes_for_two :
    (term a b : ℕ) (logs : List VoteLog)
    → All OnePerTerm logs
    → a ≢ b
    → votes_for term a logs + votes_for term b logs ≤ length logs
votes_for_two term a b [] h n = omega arith
votes_for_two term a b (log ∷ logs) h n =
    ground (arith, one_candidate term a b log h.0 n, votes_for_two term a b logs h.1 n)

run_all_lem :
    (n me : ℕ) (histories : List (List Event))
    → All (All (InRange n)) histories
    → Returns
        (run_all n me histories)
        (λ logs. (length logs ≡ length histories) × All OnePerTerm logs)
unfolding run_all
run_all_lem n me [] h = (refl, tt)
run_all_lem n me (history ∷ histories) h =
    then_returns _ (run (make n me, []) history) _ (votes_once_per_term n me history h.0) (λ s one.
      then_returns _ (run_all n (suc me) histories) _ (run_all_lem n (suc me) histories h.1)
        (λ logs v. (omega (arith, v.0), (one, v.1))))

-- Let each of the `n` new peers of a cluster see any vote requests from peers of the cluster, any
-- appends, any answers to its own vote requests and any election timeouts, in any order of its own,
-- and no answers to heartbeats. Then no handler panics, and of two
-- candidates one has the votes of at most half of the peers in a given term.
pub one_majority :
    (n term a b : ℕ) (histories : List (List Event))
    → length histories ≡ n
    → All (All (InRange n)) histories
    → a ≢ b
    → Returns
        (run_all n 0 histories)
        (λ logs. (votes_for term a logs ≤ n / 2) ⊎ (votes_for term b logs ≤ n / 2))
one_majority n term a b histories e h d =
    returns_map _ (run_all n 0 histories) (run_all_lem n 0 histories h)
      (λ logs v. ground (arith, v.0, votes_for_two term a b logs v.1 d))
