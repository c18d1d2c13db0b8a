-- ===== src/Kv/CtrlLaws.antt =====
-- A clerk of Lab2_MapReduce/src/shardctrler/client.go ends when a server answers as a leader.
-- A reply of a server that is not the leader is passed over.
use tda596labs.Base.{
  ◌==◌, if◌then◌else◌, Bool-cases, Option-cases, ℕ, zero, suc, ◌+◌, ◌≤◌, ◌<◌, String, ◌≡◌, refl,
  sym, subst, ◌∙◌, inl, inr, Bool, Option, some, List, [], ◌∷◌, arith,
}
use tda596labs.Kv.Types.{QueryReply}
use tda596labs.Kv.Clerks.{try_each, rounds, query, Verdict, answered, next_server, try_group}
use tda596labs.Kv.ClerkLaws.{FirstAnswer, try_group-FirstAnswer, answer_first}

abbrev pub leader_verdict : {R : Type 0} → (R → Bool) → R → Verdict
leader_verdict wrong_leader reply = if wrong_leader reply then next_server else answered

try_each-try_group :
    {R : Type 0} (wrong_leader : R → Bool) (call : String → Option R) (servers : List String)
    → try_each wrong_leader call servers ≡ try_group (leader_verdict wrong_leader) call servers
unfolding try_each try_group
try_each-try_group wrong_leader call [] = refl
try_each-try_group wrong_leader call (s ∷ servers) = elim (Option-cases (call s)) [
  | inl e ↦ rw (try_each, try_group, e) (try_each-try_group wrong_leader call servers)
  | inr (r, e) ↦ elim (Bool-cases (wrong_leader r)) [
    | inl f ↦ rw (try_each, try_group, e, f) (try_each-try_group wrong_leader call servers)
    | inr f ↦ rw (try_each, try_group, e, f) refl
  ]
]

rounds_lem :
    {R : Type 0} (once : ℕ → Option R) (fuel round n : ℕ) (reply : R)
    → once n ≡ some reply
    → round ≤ n
    → n < round + fuel
    → (m : ℕ) × (found : R) × (m ≤ n)
      × (once m ≡ some found)
      × (rounds once fuel round ≡ some found)
unfolding rounds
rounds_lem once zero round n reply e b c = absurd (omega arith)
rounds_lem once (suc fuel) round n reply e b c = elim (Option-cases (once round)) [
  | inr (found, f) ↦ (round, found, b, f, rw (rounds, f) refl)
  | inl f ↦ elim (Bool-cases (round == n)) [
    | inl same_round ↦
        let here : round ≡ n = ground arith in
        absurd (cc (f, subst (λ r. once r ≡ some reply) (sym here) e))
    | inr other ↦
        let (m, found, k, g, later) =
          rounds_lem once fuel (round + 1) n reply e (ground arith) (omega arith) in
        (m, found, k, g, rw (rounds, f) later)
  ]
]

-- Let a server answer as the leader in round `n`. Then `Query` ends within `n + 1` rounds, with the
-- configuration of the first server that answers as a leader, in that round or in an earlier one.
pub query_answers :
    (call : ℕ → String → Option QueryReply) (servers : List String) (n : ℕ) (reply : QueryReply)
    → FirstAnswer (leader_verdict (λ reply. reply.wrong_leader)) (call n) servers reply
    → (m : ℕ) × (found : QueryReply) × (m ≤ n)
      × FirstAnswer (leader_verdict (λ reply. reply.wrong_leader)) (call m) servers found
      × (query call servers (n + 1) ≡ some found.config)
unfolding query
query_answers call servers n reply a =
    let wrong : QueryReply → Bool = λ reply. reply.wrong_leader in
    let once : ℕ → Option QueryReply = λ round. try_each wrong (call round) servers in
    let (m, found, b, e, ended) =
      rounds_lem once (n + 1) 0 n reply
        (try_each-try_group wrong (call n) servers
          ∙ try_group-FirstAnswer (leader_verdict wrong) (call n) servers reply a)
        (omega arith) (omega arith) in
    (
      m,
      found,
      b,
      answer_first (leader_verdict wrong) (call m) servers found
          (sym (try_each-try_group wrong (call m) servers) ∙ e),
      rw ended refl,
    )
