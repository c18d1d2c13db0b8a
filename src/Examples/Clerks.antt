-- ===== src/Examples/Clerks.antt =====
-- A clerk of Lab2_MapReduce/src/shardkv/client.go that finds its group in the second round.
use tda596labs.Base.{
  ◌==◌, if◌then◌else◌, ok, index, same, ℕ, ◌+◌, ◌≤◌, String, ◌≡◌, refl, inl, inr, Option, none,
  some, [], ◌∷◌,
}
use tda596labs.Base.IntMap.{lookup}
use tda596labs.Kv.Types.{Config, ok_err, wrong_leader_err, GetReply}
use tda596labs.Kv.Clerks.{key2shard, get}
use tda596labs.Kv.ClerkAnswers.{Replied, GetAnswers, GetPasses, get_answers}

abbrev settled : ℕ → Config
settled round = record {
  num = round;
  shards = 7 ∷ 7 ∷ 7 ∷ 7 ∷ 7 ∷ 7 ∷ 7 ∷ 7 ∷ 7 ∷ 7 ∷ [];
  groups = (7, "server-a" ∷ "server-b" ∷ []) ∷ [];
}

-- In the first round nobody answers, then only server-b as the leader.
abbrev replies : ℕ → String → Option GetReply
replies round srv =
    if round == 0
    then none
    else if same srv "server-b"
    then some (record { err = ok_err; value = "x" })
    else some (record { err = wrong_leader_err; value = "" })

second_round :
    Replied GetPasses GetAnswers replies settled (65 ∷ []) 1 (record { err = ok_err; value = "x" })
unfolding index key2shard lookup
second_round = record {
  gid = 7;
  servers = "server-a" ∷ "server-b" ∷ [];
  before = "server-a" ∷ [];
  srv = "server-b";
  after = [];
  shard_of = refl;
  group_of = refl;
  in_servers = refl;
  all_skipped = (inr (record { err = wrong_leader_err; value = "" }, refl, inl refl), tt);
  called = refl;
  is_answer = inl refl;
}

get_answers_example :
    (m : ℕ) × (found : GetReply) × (m ≤ 1)
    × Replied GetPasses GetAnswers replies settled (65 ∷ []) m found
    × (get replies settled (65 ∷ []) (1 + 1) ≡ ok (some found.value))
get_answers_example =
    get_answers replies settled (65 ∷ []) 1 (record { err = ok_err; value = "x" }) (λ r. refl)
      second_round
