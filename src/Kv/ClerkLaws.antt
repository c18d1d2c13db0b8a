-- ===== src/Kv/ClerkLaws.antt =====
-- The loops of a clerk of Lab2_MapReduce/src/shardkv/client.go over the servers of a group and over
-- the rounds.
use tda596labs.Base.{
  ◌==◌, Bool-cases, Option-cases, length, All, ok, index, index_ok, ℕ, zero, suc, ◌+◌, ◌≤◌, ◌<◌,
  String, ◌≡◌, refl, sym, ap, subst, ◌∙◌, ◌⊎◌, inl, inr, Option, none, some, List, [], ◌∷◌, ◌++◌,
  arith,
}
use tda596labs.Base.IntMap.{lookup}
use tda596labs.Kv.Types.{nshards, Config}
use tda596labs.Kv.Clerks.{
  key2shard, Verdict, answered, gives_up, next_server, try_group, ask_group, shard_round,
  shard_rounds,
}
use native.Mathlib.Nat.{mod-lt}

Verdict-cases : (v : Verdict) → (v ≡ answered) ⊎ (v ≡ gives_up) ⊎ (v ≡ next_server)
Verdict-cases answered = inl refl
Verdict-cases gives_up = inr (inl refl)
Verdict-cases next_server = inr (inr refl)

module _ {R : Type 0} (verdict : R → Verdict) (call : String → Option R) where
  -- A server that the loop goes past: no answer, or one that sends it on.
  abbrev pub PassedBy : Option R → Type 0
  PassedBy none = Unit
  PassedBy (some reply) = verdict reply ≡ next_server

  -- The reply is the first answer among the servers.
  pub record FirstAnswer (servers : List String) (reply : R) : Type 0 where
    pub before : List String
    pub srv : String
    pub after : List String
    pub in_servers : servers ≡ before ++ srv ∷ after
    pub none_before : All (λ s. PassedBy (call s)) before
    pub called : call srv ≡ some reply
    pub is_answer : verdict reply ≡ answered

  try_group-past :
      (before : List String) (srv : String) (after : List String) (reply : R)
      → All (λ s. PassedBy (call s)) before
      → call srv ≡ some reply
      → verdict reply ≡ answered
      → try_group verdict call (before ++ srv ∷ after) ≡ some reply
  unfolding try_group
  try_group-past [] srv after reply h e a = rw (try_group, e, a) refl
  try_group-past (s ∷ before) srv after reply (p, h) e a = elim (Option-cases (call s)) [
    | inl f ↦ rw (try_group, f) (try_group-past before srv after reply h e a)
    | inr (r, f) ↦
        let on : verdict r ≡ next_server = subst PassedBy f p in
        rw (try_group, f, on) (try_group-past before srv after reply h e a)
  ]

  pub try_group-FirstAnswer :
      (servers : List String) (reply : R)
      → FirstAnswer servers reply
      → try_group verdict call servers ≡ some reply
  try_group-FirstAnswer servers reply h =
      rw h.in_servers
        (try_group-past h.before h.srv h.after reply h.none_before h.called h.is_answer)

  past :
      (s : String) (servers : List String) (reply : R)
      → PassedBy (call s)
      → FirstAnswer servers reply
      → FirstAnswer (s ∷ servers) reply
  past s servers reply p h = record {
    before = s ∷ h.before;
    srv = h.srv;
    after = h.after;
    in_servers = ap (λ l. s ∷ l) h.in_servers;
    none_before = (p, h.none_before);
    called = h.called;
    is_answer = h.is_answer;
  }

  pub answer_first :
      (servers : List String) (reply : R)
      → try_group verdict call servers ≡ some reply
      → FirstAnswer servers reply
  unfolding try_group
  answer_first [] reply e = absurd (cc e)
  answer_first (s ∷ servers) reply e = elim (Option-cases (call s)) [
    | inl f ↦
        past s servers reply (subst PassedBy (sym f) tt)
          (answer_first servers reply (rw (try_group, f) at e))
    | inr (r, f) ↦ elim (Verdict-cases (verdict r)) [
      | inl a ↦
          let first : r ≡ reply = ground (arith, rw (try_group, f, a) at e) in
          record {
            before = [];
            srv = s;
            after = servers;
            in_servers = refl;
            none_before = tt;
            called = f ∙ ap some first;
            is_answer = ap verdict (sym first) ∙ a;
          }
      | inr (inl g) ↦ absurd (cc (rw (try_group, f, g) at e))
      | inr (inr n) ↦
          past s servers reply (subst PassedBy (sym f) n)
            (answer_first servers reply (rw (try_group, f, n) at e))
    ]
  ]

module _ {R : Type 0} (verdict : R → Verdict) (call : ℕ → String → Option R) (configs : ℕ → Config)
    (key : List ℕ) where
  -- In this round the group of the key's shard has this first answer.
  pub record Answered (round : ℕ) (reply : R) : Type 0 where
    pub gid : ℕ
    pub servers : List String
    pub shard_of : index (configs round).shards (key2shard key) ≡ ok gid
    pub group_of : lookup gid (configs round).groups ≡ some servers
    pub first : FirstAnswer verdict (call round) servers reply

  key2shard-below : key2shard key < nshards
  unfolding key2shard
  key2shard-below = below key
    where
      below : (bytes : List ℕ) → key2shard bytes < nshards
      below [] = omega arith
      below (byte ∷ bytes) = grind (arith, mod-lt)

  -- A round returns, and what it brings is an answer of the group.
  round_cases :
      (round : ℕ)
      → length (configs round).shards ≡ nshards
      → (shard_round verdict (call round) (configs round) key ≡ ok none)
        ⊎ ((reply : R) × (shard_round verdict (call round) (configs round) key ≡ ok (some reply))
            × Answered round reply)
  unfolding shard_round ask_group
  round_cases round h =
      let (gid, e, g) =
        index_ok (configs round).shards (key2shard key) (omega (arith, h, key2shard-below)) in
      elim (Option-cases (lookup gid (configs round).groups)) [
        | inl f ↦ inl (rw e (ap (λ o. ok (ask_group verdict (call round) o)) f))
        | inr (servers, f) ↦ elim (Option-cases (try_group verdict (call round) servers)) [
          | inl n ↦ inl (rw e (ap (λ o. ok (ask_group verdict (call round) o)) f ∙ ap ok n))
          | inr (reply, a) ↦ inr (
            reply,
            rw e (ap (λ o. ok (ask_group verdict (call round) o)) f ∙ ap ok a),
            record {
              gid = gid;
              servers = servers;
              shard_of = e;
              group_of = f;
              first = answer_first verdict (call round) servers reply a;
            },
          )
        ]
      ]

  Answered-shard_round :
      (round : ℕ) (reply : R)
      → Answered round reply
      → shard_round verdict (call round) (configs round) key ≡ ok (some reply)
  unfolding shard_round ask_group
  Answered-shard_round round reply a = rw a.shard_of (
      ap (λ o. ok (ask_group verdict (call round) o)) a.group_of
      ∙ ap ok (try_group-FirstAnswer verdict (call round) a.servers reply a.first))

  -- Let every configuration have a group for each shard, and let some round that the fuel reaches bring
  -- an answer. Then the loop returns an answer, of that round or of an earlier one.
  pub shard_rounds_lem :
      (fuel round n : ℕ) (reply : R)
      → ((r : ℕ) → length (configs r).shards ≡ nshards)
      → Answered n reply
      → round ≤ n
      → n < round + fuel
      → (m : ℕ) × (found : R) × (m ≤ n)
        × Answered m found
        × (shard_rounds verdict call configs key fuel round ≡ ok (some found))
  unfolding shard_rounds
  shard_rounds_lem zero round n reply h a b c = absurd (omega arith)
  shard_rounds_lem (suc fuel) round n reply h a b c = elim (round_cases round (h round)) [
    | inr (found, e, now) ↦ (round, found, b, now, rw e refl)
    | inl e ↦ elim (Bool-cases (round == n)) [
      | inl same_round ↦
          let here : round ≡ n = ground arith in
          absurd (
            cc (
              e,
              subst (λ r. shard_round verdict (call r) (configs r) key ≡ ok (some reply)) (sym here)
                  (Answered-shard_round n reply a),
            ))
      | inr other ↦
          let (m, found, k, now, later) =
            shard_rounds_lem fuel (round + 1) n reply h a (ground arith) (omega arith) in
          (m, found, k, now, rw (e, later) refl)
    ]
  ]
