-- ===== src/Chord/StartupLaws.antt =====
-- A node of Lab3_Chord that creates a ring answers for every identifier, and `initIntervals` waits for
-- a node that joins.
use tda596labs.Base.{
  ltb, ◌==◌, Bool-cases, replicate, ok, ◌>>=◌, store, same, ℕ, zero, suc, ◌+◌, ◌≤◌, ◌<◌, String,
  ◌≡◌, refl, ap, subst, ◌↔◌, inl, inr, Bool, true, false, Option, none, List, [], ◌∷◌, arith,
}
use tda596labs.Chord.Ring.{key_size, between, verify_range}
use tda596labs.Chord.Types.{unknown, RetCode, mysucc, iamsucc, FingerEntry, Chord, Response}
use tda596labs.Chord.Lookup.{hash_string, find_from, find}
use tda596labs.Chord.Membership.{own_address, own_fingers, init_client, create}
use tda596labs.Chord.RepairLaws.{count}
use tda596labs.Chord.Commands.{bytes_of}
use tda596labs.Chord.Startup.{
  get_identifier, Flags, Settings, get_args, start, wait_ready, init_intervals,
}
use Prim.Native.String.{◌++◌ as str_append}

-- Where the loop stops: at the first look that finds the node ready, or behind the last.
wait_ready_lem :
    (pending : ℕ → Bool) (left count : ℕ)
    → (wait_ready pending left count ≤ count + left)
      × (wait_ready pending left count < count + left
          → pending (wait_ready pending left count) ≡ false)
      × ((i : ℕ) → count ≤ i → i < wait_ready pending left count → pending i ≡ true)
unfolding wait_ready
wait_ready_lem pending zero count =
    (omega arith, λ h. absurd (omega arith), λ i h g. absurd (omega arith))
wait_ready_lem pending (suc left) count = elim (Bool-cases (pending count)) [
  | inr e ↦ rw e (omega arith, λ h. e, λ i h g. absurd (omega arith))
  | inl e ↦
      let (a, b, c) = wait_ready_lem pending left (count + 1) in
      rw e (
        omega (arith, a),
        λ h. b (omega arith),
        λ i h g. elim (Bool-cases (count == i)) [
          | inl f ↦ let here : count ≡ i = ground arith in rw (← here) e
          | inr f ↦ c i (ground arith) g
        ],
      )
]

-- The node starts its intervals exactly if one of its first 26 looks finds it ready, after as many
-- rounds as it was not.
pub init_intervals_lem :
    (pending : ℕ → Bool) (n : ℕ)
    → (init_intervals pending ≡ ok n)
      ↔ ((n ≤ 25) × (pending n ≡ false) × ((i : ℕ) → i < n → pending i ≡ true))
unfolding init_intervals
init_intervals_lem pending n =
    let (a, b, c) = wait_ready_lem pending 30 0 in
    let w = wait_ready pending 30 0 in
    (
      λ e. elim (Bool-cases (ltb 25 w)) [
        | inl f ↦ absurd (cc (rw f at e))
        | inr f ↦
            let stopped : w ≡ n = ground (arith, rw f at e) in
            (
              ground arith,
              subst (λ k. pending k ≡ false) stopped (b (ground arith)),
              λ i h. c i (omega arith) (omega arith),
            )
      ],
      λ (small, ready, waits).
          let stopped : w ≡ n = elim (Bool-cases (ltb w n)) [
            | inl h ↦ absurd (cc (waits w (ground arith), b (ground arith)))
            | inr h ↦ elim (Bool-cases (ltb n w)) [
              | inl g ↦ absurd (cc (ready, c n (ground arith) (ground arith)))
              | inr g ↦ ground arith
            ]
          ] in
          let in_time : ltb 25 w ≡ false = ground arith in rw in_time (ap ok stopped),
    )

-- Two points part the ring into two arcs.
between-other_arc : (a b x : ℕ) → between a x b true ≡ false → between b x a true ≡ true
unfolding between
between-other_arc a b x h = ground arith

-- A node that is alone finds itself.
abbrev IsAlone : Chord → Type 0
IsAlone chord =
    (succs : List String) × (chord.node.successors ≡ chord.node.node_address ∷ succs)
    × (chord.node.predecessor ≡ chord.node.node_address)
    × (same chord.node.node_address unknown ≡ false)

alone_finds :
    (sha1 : String → ℕ) (chord : Chord) (x : ℕ) (response : Response)
    → IsAlone chord
    → (code : RetCode) × (owner : Response) × (find sha1 chord x response ≡ ok (code, owner))
      × (owner.is_successor ≡ true)
      × (owner.node_address ≡ chord.node.node_address)
unfolding find find_from
alone_finds sha1 chord x response (succs, e, f, g) =
    let address = chord.node.node_address in
    elim (Bool-cases (between chord.node.identifier x (hash_string sha1 address) true)) [
      | inl a ↦ (
        mysucc,
        record {
          is_successor = true;
          node_address = address;
          identifier = hash_string sha1 address;
        },
        rw (e, g, a) refl,
        refl,
        refl,
      )
      | inr a ↦ (
        iamsucc,
        record { is_successor = true; node_address = address; identifier = chord.node.identifier },
        rw (e, f, g, a, between-other_arc chord.node.identifier (hash_string sha1 address) x a)
            refl,
        refl,
        refl,
      )
    ]

-- The state that a node with these fingers founds a ring in.
abbrev founded : Settings → ℕ → FingerEntry → List FingerEntry → Chord
founded settings k first fingers =
    let node = settings.chord.node in
    record (settings.chord) {
      node = record node {
        successors = node.node_address ∷ own_address node.node_address (replicate k "");
        finger_table =
            record { identifier = node.identifier; node_address = node.node_address }
            ∷ own_fingers 1 node.identifier node.node_address fingers;
        predecessor = node.node_address;
        join_pending = false;
      };
    }

start-IsAlone :
    (sha1 : String → ℕ) (set_string : String → Option (Bool × ℕ)) (settings : Settings) (k : ℕ)
    (fingers : List FingerEntry) (first : FingerEntry)
    → settings.join_node_ip ≡ "XXX"
    → settings.chord.node.successors ≡ replicate (suc k) ""
    → settings.chord.node.finger_table ≡ first ∷ fingers
    → same settings.chord.node.node_address unknown ≡ false
    → (chord : Chord) × (start sha1 set_string settings ≡ ok (chord, none))
      × IsAlone chord
      × (chord.node.join_pending ≡ false)
unfolding start init_client create own_address store
start-IsAlone sha1 set_string settings k fingers first e f g h = (
  founded settings k first fingers,
  rw (g, e, f) refl,
  (own_address settings.chord.node.node_address (replicate k ""), refl, refl, h),
  refl,
)

abbrev settings_of : Flags → ℕ → Settings
settings_of flags id = record {
  chord = record {
    node = record {
      identifier = id;
      node_address = str_append flags.address (str_append ":" flags.port);
      predecessor = "";
      next_finger = 0;
      finger_table = replicate (key_size + 1) (record { identifier = 0; node_address = "" });
      successors = replicate flags.num_succ "";
      join_pending = true;
    };
    num_succ = flags.num_succ;
    files = [];
    replicated_files = [];
    enc_key = bytes_of flags.encode;
  };
  join_node_ip = flags.join_address;
  join_node_port = flags.join_port;
  interval_timings = record {
    stabilize_ms = flags.stabilize_ms;
    fix_fingers_ms = flags.fix_fingers_ms;
    check_pred_ms = flags.check_pred_ms;
  };
}

-- Let a node be started without a node to join, with flags in range, the certificates in place, at
-- least one successor and an identifier that can be read, under an address other than "X". Then it
-- creates a ring, is no longer pending, and finds itself as the owner of every identifier.
pub created_ring_owns :
    (sha1 : String → ℕ) (set_string : String → Option (Bool × ℕ)) (flags : Flags) (id x : ℕ)
    (response : Response)
    → flags.join_address ≡ "XXX"
    → 0 < flags.num_succ
    → verify_range flags.stabilize_ms flags.fix_fingers_ms flags.check_pred_ms ≡ true
    → get_identifier sha1 set_string
        (str_append flags.address (str_append ":" flags.port))
        flags.identifier
      ≡ ok id
    → same (str_append flags.address (str_append ":" flags.port)) unknown ≡ false
    → (chord : Chord) × (code : RetCode) × (owner : Response) × ((get_args sha1 set_string true true
            flags
          >>= λ settings. start sha1 set_string settings)
        ≡ ok (chord, none))
      × (find sha1 chord x response ≡ ok (code, owner))
      × (owner.is_successor ≡ true)
      × (owner.node_address ≡ chord.node.node_address)
      × (chord.node.join_pending ≡ false)
unfolding get_args
created_ring_owns sha1 set_string flags id x response e some_succ range named known =
    let (k, n) = positive flags.num_succ some_succ in
    let (chord, started, alone, ready) =
      start-IsAlone sha1 set_string (settings_of flags id) k
        (replicate key_size (record { identifier = 0; node_address = "" }))
        (record { identifier = 0; node_address = "" }) e (ap (λ j. replicate j "") n) refl known in
    let (code, owner, f, g, h) = alone_finds sha1 chord x response alone in
    (chord, code, owner, rw (range, named) started, f, g, h, ready)
  where
    positive : (n : ℕ) → 0 < n → (k : ℕ) × (n ≡ suc k)
    positive zero h = absurd (omega arith)
    positive (suc k) h = (k, refl)
