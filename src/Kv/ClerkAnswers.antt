-- ===== src/Kv/ClerkAnswers.antt =====
-- A clerk of Lab2_MapReduce/src/shardkv/client.go ends when a round brings an answer, with an answer of
-- the group that its configuration names for the key.
use tda596labs.Base.{
  Option-cases, length, All, ok, index, ℕ, ◌+◌, ◌≤◌, String, ◌≡◌, refl, sym, subst, ◌↔◌, ◌⊎◌, inl,
  inr, Option, none, some, List, [], ◌∷◌, ◌++◌, arith,
}
use tda596labs.Base.IntMap.{lookup}
use tda596labs.Kv.Types.{
  nshards, Config, Err, ok_err, no_key, wrong_group, wrong_leader_err, other_err, GetReply,
  PutAppendArgs, PutAppendReply,
}
use tda596labs.Kv.Clerks.{
  key2shard, Verdict, answered, next_server, get_verdict, put_verdict, shard_rounds, get,
  put_append,
}
use tda596labs.Kv.ClerkLaws.{PassedBy, shard_rounds_lem}

module _ {R : Type 0} (passes answers : R → Type 0) (call : ℕ → String → Option R)
    (configs : ℕ → Config) (key : List ℕ) where
  -- The server gives no reply in this round, or one that the clerk goes past.
  abbrev pub Skipped : ℕ → String → Type 0
  Skipped round s = (call round s ≡ none) ⊎ ((r : R) × (call round s ≡ some r) × passes r)

  -- In this round the group of the key's shard has a server that answers, behind skipped ones only.
  pub record Replied (round : ℕ) (reply : R) : Type 0 where
    pub gid : ℕ
    pub servers : List String
    pub before : List String
    pub srv : String
    pub after : List String
    pub shard_of : index (configs round).shards (key2shard key) ≡ ok gid
    pub group_of : lookup gid (configs round).groups ≡ some servers
    pub in_servers : servers ≡ before ++ srv ∷ after
    pub all_skipped : All (Skipped round) before
    pub called : call round srv ≡ some reply
    pub is_answer : answers reply

  module _ (verdict : R → Verdict) where
    Skipped-PassedBy :
        (round : ℕ) (servers : List String)
        → ((r : R) → passes r → verdict r ≡ next_server)
        → All (Skipped round) servers
        → All (λ s. PassedBy verdict (call round) (call round s)) servers
    Skipped-PassedBy round [] h v = tt
    Skipped-PassedBy round (s ∷ servers) h (inl e, v) =
        (subst (PassedBy verdict (call round)) (sym e) tt, Skipped-PassedBy round servers h v)
    Skipped-PassedBy round (s ∷ servers) h (inr (r, e, p), v) =
        (subst (PassedBy verdict (call round)) (sym e) (h r p), Skipped-PassedBy round servers h v)

    PassedBy-Skipped :
        (round : ℕ) (servers : List String)
        → ((r : R) → verdict r ≡ next_server → passes r)
        → All (λ s. PassedBy verdict (call round) (call round s)) servers
        → All (Skipped round) servers
    PassedBy-Skipped round [] h v = tt
    PassedBy-Skipped round (s ∷ servers) h (p, v) = (
      elim (Option-cases (call round s)) [
        | inl e ↦ inl e
        | inr (r, e) ↦ inr (r, e, h r (subst (PassedBy verdict (call round)) e p))
      ],
      PassedBy-Skipped round servers h v,
    )

    -- If `verdict` is right about what answers and what is gone past, the loop returns an answer.
    shard_rounds-Replied :
        (n : ℕ) (reply : R)
        → ((r : R) → (verdict r ≡ next_server) ↔ passes r)
        → ((r : R) → (verdict r ≡ answered) ↔ answers r)
        → ((r : ℕ) → length (configs r).shards ≡ nshards)
        → Replied n reply
        → (m : ℕ) × (found : R) × (m ≤ n)
          × Replied m found
          × (shard_rounds verdict call configs key (n + 1) 0 ≡ ok (some found))
    shard_rounds-Replied n reply past done h a =
        let (m, found, b, now, e) =
          shard_rounds_lem verdict call configs key (n + 1) 0 n reply h
            (record {
              gid = a.gid;
              servers = a.servers;
              shard_of = a.shard_of;
              group_of = a.group_of;
              first = record {
                before = a.before;
                srv = a.srv;
                after = a.after;
                in_servers = a.in_servers;
                none_before = Skipped-PassedBy n a.before (λ r. (past r).1) a.all_skipped;
                called = a.called;
                is_answer = (done reply).1 a.is_answer;
              };
            })
            (omega arith) (omega arith) in
        (
          m,
          found,
          b,
          record {
            gid = now.gid;
            servers = now.servers;
            before = now.first.before;
            srv = now.first.srv;
            after = now.first.after;
            shard_of = now.shard_of;
            group_of = now.group_of;
            in_servers = now.first.in_servers;
            all_skipped =
                PassedBy-Skipped m now.first.before (λ r. (past r).0) now.first.none_before;
            called = now.first.called;
            is_answer = (done found).0 now.first.is_answer;
          },
          e,
        )

-- For `Get`, OK and ErrNoKey answer, and the clerk goes past ErrWrongLeader and any other text; it
-- leaves the group on ErrWrongGroup.
abbrev pub GetAnswers : GetReply → Type 0
GetAnswers reply = (reply.err ≡ ok_err) ⊎ (reply.err ≡ no_key)

abbrev pub GetPasses : GetReply → Type 0
GetPasses reply = (reply.err ≡ wrong_leader_err) ⊎ (reply.err ≡ other_err)

-- For `PutAppend` OK alone answers.
abbrev pub PutAnswers : PutAppendReply → Type 0
PutAnswers reply = reply.err ≡ ok_err

abbrev pub PutPasses : PutAppendReply → Type 0
PutPasses reply = (reply.err ≡ no_key) ⊎ (reply.err ≡ wrong_leader_err) ⊎ (reply.err ≡ other_err)

get_verdict-passes :
    (e : Err) → (get_verdict e ≡ next_server) ↔ ((e ≡ wrong_leader_err) ⊎ (e ≡ other_err))
unfolding get_verdict
get_verdict-passes ok_err = (λ e. cc, ground arith)
get_verdict-passes no_key = (λ e. cc, ground arith)
get_verdict-passes wrong_group = (λ e. cc, ground arith)
get_verdict-passes wrong_leader_err = (λ e. inl refl, λ e. refl)
get_verdict-passes other_err = (λ e. inr refl, λ e. refl)

get_verdict-answers : (e : Err) → (get_verdict e ≡ answered) ↔ ((e ≡ ok_err) ⊎ (e ≡ no_key))
unfolding get_verdict
get_verdict-answers ok_err = (λ e. inl refl, λ e. refl)
get_verdict-answers no_key = (λ e. inr refl, λ e. refl)
get_verdict-answers wrong_group = (λ e. cc, ground arith)
get_verdict-answers wrong_leader_err = (λ e. cc, ground arith)
get_verdict-answers other_err = (λ e. cc, ground arith)

put_verdict-passes :
    (e : Err)
    → (put_verdict e ≡ next_server) ↔ ((e ≡ no_key) ⊎ (e ≡ wrong_leader_err) ⊎ (e ≡ other_err))
unfolding put_verdict
put_verdict-passes ok_err = (λ e. cc, ground arith)
put_verdict-passes no_key = (λ e. inl refl, λ e. refl)
put_verdict-passes wrong_group = (λ e. cc, ground arith)
put_verdict-passes wrong_leader_err = (λ e. inr (inl refl), λ e. refl)
put_verdict-passes other_err = (λ e. inr (inr refl), λ e. refl)

put_verdict-answers : (e : Err) → (put_verdict e ≡ answered) ↔ (e ≡ ok_err)
unfolding put_verdict
put_verdict-answers ok_err = (λ e. refl, λ e. refl)
put_verdict-answers no_key = (λ e. cc, λ e. cc)
put_verdict-answers wrong_group = (λ e. cc, λ e. cc)
put_verdict-answers wrong_leader_err = (λ e. cc, λ e. cc)
put_verdict-answers other_err = (λ e. cc, λ e. cc)

-- Let every configuration name a group for each of the 10 shards, and let in round `n` the group of the
-- key's shard have a server that answers with OK or ErrNoKey, behind servers only that do not reply or
-- reply with neither of these nor ErrWrongGroup. Then `Get` ends within `n + 1` rounds, with the value
-- of such an answer of that round or of an earlier one, under that round's configuration.
pub get_answers :
    (call : ℕ → String → Option GetReply) (configs : ℕ → Config) (key : List ℕ) (n : ℕ)
    (reply : GetReply)
    → ((r : ℕ) → length (configs r).shards ≡ nshards)
    → Replied GetPasses GetAnswers call configs key n reply
    → (m : ℕ) × (found : GetReply) × (m ≤ n)
      × Replied GetPasses GetAnswers call configs key m found
      × (get call configs key (n + 1) ≡ ok (some found.value))
unfolding get
get_answers call configs key n reply h a =
    let (m, found, b, now, e) =
      shard_rounds-Replied GetPasses GetAnswers call configs key (λ reply. get_verdict reply.err) n
        reply (λ r. get_verdict-passes r.err) (λ r. get_verdict-answers r.err) h a in
    (m, found, b, now, rw e refl)

-- Under the same condition, with OK alone as an answer, `PutAppend` ends within `n + 1` rounds.
pub put_append_answers :
    (call : PutAppendArgs → ℕ → String → Option PutAppendReply) (configs : ℕ → Config)
    (key : List ℕ) (value op : String) (n : ℕ) (reply : PutAppendReply)
    → (let asked = call (record { key = key; value = value; op = op }) in
        ((r : ℕ) → length (configs r).shards ≡ nshards)
        → Replied PutPasses PutAnswers asked configs key n reply
        → (m : ℕ) × (found : PutAppendReply) × (m ≤ n)
          × Replied PutPasses PutAnswers asked configs key m found
          × (put_append call configs key value op (n + 1) ≡ ok (some found)))
unfolding put_append
put_append_answers call configs key value op n reply h a =
    shard_rounds-Replied PutPasses PutAnswers (call (record { key = key; value = value; op = op }))
      configs key (λ reply. put_verdict reply.err) n reply (λ r. put_verdict-passes r.err)
      (λ r. put_verdict-answers r.err) h a
