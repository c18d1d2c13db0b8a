-- ===== src/Kv/Clerks.antt =====
-- The loops of the clerks in Lab2_MapReduce/src/shardctrler/client.go and shardkv/client.go. What the
-- network answers in a round to a call of a server is a parameter, with `none` for a call that fails.
-- A loop runs on fuel, the rounds that are left; `none` if no answer came by then.
use tda596labs.Base.{
  if◌then◌else◌, Outcome, ok, ◌>>=◌, index, ℕ, zero, suc, ◌+◌, ◌%◌, String, Bool, Option, none,
  some, List, [], ◌∷◌,
}
use tda596labs.Base.IntMap.{lookup}
use tda596labs.Kv.Types.{
  nshards, Config, QueryReply, CtrlReply, Err, ok_err, no_key, wrong_group, wrong_leader_err,
  other_err, GetReply, PutAppendArgs, PutAppendReply,
}
use mathlib.Core.Option

-- One round of a controller's clerk: the first server that answers as a leader.
unfoldable pub try_each : {R : Type 0} → (R → Bool) → (String → Option R) → List String → Option R
try_each wrong_leader call [] = none
try_each wrong_leader call (srv ∷ servers) =
    let rest = try_each wrong_leader call servers in
    elim (call srv) [ none ↦ rest | some reply ↦ if wrong_leader reply then rest else some reply ]

-- The rounds, with the number of the next.
unfoldable pub rounds : {R : Type 0} → (ℕ → Option R) → ℕ → ℕ → Option R
rounds once zero round = none
rounds once (suc fuel) round =
    let later = rounds once fuel (round + 1) in elim (once round) [ none ↦ later | some r ↦ some r ]

-- `Query`, and `Join`, `Leave` and `Move`, whose requests are inside `call`.
unfoldable pub query : (ℕ → String → Option QueryReply) → List String → ℕ → Option Config
query call servers fuel =
    Option.map (λ reply. reply.config)
      (rounds (λ round. try_each (λ reply. reply.wrong_leader) (call round) servers) fuel 0)

unfoldable pub change : (ℕ → String → Option CtrlReply) → List String → ℕ → Option CtrlReply
change call servers fuel =
    rounds (λ round. try_each (λ reply. reply.wrong_leader) (call round) servers) fuel 0

-- `key2shard`.
unfoldable pub key2shard : List ℕ → ℕ
key2shard [] = 0
key2shard (byte ∷ bytes) = byte % nshards

-- What a reply means for the loop over a group's servers.
pub data Verdict : Type 0 where
  answered gives_up next_server : Verdict

unfoldable pub get_verdict : Err → Verdict
get_verdict ok_err = answered
get_verdict no_key = answered
get_verdict wrong_group = gives_up
get_verdict wrong_leader_err = next_server
get_verdict other_err = next_server

unfoldable pub put_verdict : Err → Verdict
put_verdict ok_err = answered
put_verdict no_key = next_server
put_verdict wrong_group = gives_up
put_verdict wrong_leader_err = next_server
put_verdict other_err = next_server

-- The loop over the servers of a group.
unfoldable pub try_group :
    {R : Type 0} → (R → Verdict) → (String → Option R) → List String → Option R
try_group verdict call [] = none
try_group verdict call (srv ∷ servers) =
    let rest = try_group verdict call servers in
    elim (call srv) [
      | none ↦ rest
      | some reply ↦ elim (verdict reply) [
        | answered ↦ some reply
        | gives_up ↦ none
        | next_server ↦ rest
      ]
    ]

-- The servers of the group, if the configuration has it.
unfoldable pub ask_group :
    {R : Type 0} → (R → Verdict) → (String → Option R) → Option (List String) → Option R
ask_group verdict call none = none
ask_group verdict call (some servers) = try_group verdict call servers

-- One round of a shard clerk under a configuration: the group of the key's shard.
unfoldable pub shard_round :
    {R : Type 0} → (R → Verdict) → (String → Option R) → Config → List ℕ → Outcome (Option R)
shard_round verdict call config key = index config.shards (key2shard key) >>= λ gid.
    ok (ask_group verdict call (lookup gid config.groups))

-- The rounds of `Get` and `PutAppend`; `configs round` is the configuration that round has, the
-- clerk's own at first and then what the controller's clerk answers to `Query(-1)`.
unfoldable pub shard_rounds :
    {R : Type 0}
    → (R → Verdict)
    → (ℕ → String → Option R)
    → (ℕ → Config)
    → List ℕ
    → ℕ
    → ℕ
    → Outcome (Option R)
shard_rounds verdict call configs key zero round = ok none
shard_rounds verdict call configs key (suc fuel) round =
    let later = shard_rounds verdict call configs key fuel (round + 1) in
    shard_round verdict (call round) (configs round) key
    >>= elim [ none ↦ later | some reply ↦ ok (some reply) ]

unfoldable pub get :
    (ℕ → String → Option GetReply) → (ℕ → Config) → List ℕ → ℕ → Outcome (Option String)
get call configs key fuel =
    shard_rounds (λ reply. get_verdict reply.err) call configs key fuel 0 >>= λ r.
    ok (Option.map (λ reply. reply.value) r)

unfoldable pub put_append :
    (PutAppendArgs → ℕ → String → Option PutAppendReply)
    → (ℕ → Config)
    → List ℕ
    → String
    → String
    → ℕ
    → Outcome (Option PutAppendReply)
put_append call configs key value op fuel =
    shard_rounds (λ reply. put_verdict reply.err)
      (call (record { key = key; value = value; op = op })) configs key fuel 0

unfoldable pub put :
    (PutAppendArgs → ℕ → String → Option PutAppendReply)
    → (ℕ → Config)
    → List ℕ
    → String
    → ℕ
    → Outcome (Option PutAppendReply)
put call configs key value fuel = put_append call configs key value "Put" fuel

unfoldable pub append :
    (PutAppendArgs → ℕ → String → Option PutAppendReply)
    → (ℕ → Config)
    → List ℕ
    → String
    → ℕ
    → Outcome (Option PutAppendReply)
append call configs key value fuel = put_append call configs key value "Append" fuel
