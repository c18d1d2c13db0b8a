-- ===== src/Chord/FingerLaws.antt =====
-- Which fingers `FixFingers` of Lab3_Chord/chord.go refreshes.
use tda596labs.Base.{
  if◌then◌else◌, Bool-cases, length, get_elem?, length-set, get_elem?-set_ne, Outcome, ok, ◌>>=◌,
  index, index_ok, store_ok, Returns, then_returns, same, ℕ, zero, suc, ◌+◌, ◌-◌, ◌%◌, ◌≤◌, ◌<◌,
  String, ◌≡◌, refl, ◌∙◌, inl, inr, Bool, true, false, not, ◌&&◌, Option, none, some, List, arith,
}
use tda596labs.Chord.Ring.{key_size, between}
use tda596labs.Chord.Types.{unknown, FingerEntry, Chord, Response, FindRequest}
use tda596labs.Chord.Lookup.{hash_string}
use tda596labs.Chord.Repair.{
  next_valid_from, get_next_valid_finger, Network, set_finger, call_find_successor, resolve_answer,
  resolve_from, node_to_ask, resolve_finger, advance_finger, fix_fingers,
}

-- The table has kept its 161 entries and finger 160, and the cursor stands where it stood.
pub record Kept (before after : Chord) : Type 0 where
  pub counted : length after.node.finger_table ≡ length before.node.finger_table
  pub last :
      get_elem? after.node.finger_table key_size ≡ get_elem? before.node.finger_table key_size
  pub cursor : after.node.next_finger ≡ before.node.next_finger

Kept-refl : (chord : Chord) → Kept chord chord
Kept-refl chord = record { counted = refl; last = refl; cursor = refl }

Kept-trans : (a b c : Chord) → Kept a b → Kept b c → Kept a c
Kept-trans a b c h k = record {
  counted = k.counted ∙ h.counted;
  last = k.last ∙ h.last;
  cursor = k.cursor ∙ h.cursor;
}

-- The other handlers, while the lock is released, neither resize the table nor touch finger 160 or
-- the cursor.
abbrev pub Steady : Network → Type 0
Steady network = (round : ℕ) (c : Chord) (q : FindRequest) → Kept c (network round c q).0

set_finger-Kept :
    (chord : Chord) (i : ℕ) (address : String)
    → length chord.node.finger_table ≡ key_size + 1
    → i < key_size
    → Returns (set_finger chord i address) (Kept chord)
unfolding set_finger
set_finger-Kept chord i address l h =
    let (f, e, g) = index_ok chord.node.finger_table i (omega arith) in
    rw (e, store_ok chord.node.finger_table i (record f { node_address = address }) (omega arith))
      (record {
        counted = length-set chord.node.finger_table i (record f { node_address = address });
        last =
            get_elem?-set_ne chord.node.finger_table i key_size
              (record f { node_address = address }) (λ x. absurd (omega arith));
        cursor = refl;
      })

set_then-Kept :
    (before chord : Chord) (i : ℕ) (address : String) (b : Bool)
    → Kept before chord
    → length before.node.finger_table ≡ key_size + 1
    → i < key_size
    → Returns {A = Chord × Bool}
        (set_finger chord i address >>= λ c. ok (c, b))
        (λ r. Kept before r.0)
set_then-Kept before chord i address b k l h =
    then_returns _ (set_finger chord i address) _
      (set_finger-Kept chord i address (k.counted ∙ l) h) (λ c v. Kept-trans before chord c k v)

call_find_successor-Kept :
    (network : Network) (round : ℕ) (chord : Chord) (request : FindRequest)
    → Steady network
    → Kept chord (call_find_successor network round chord request).0
unfolding call_find_successor
call_find_successor-Kept network round chord request steady =
    elim (Bool-cases (same request.query_node_address chord.node.node_address)) [
      | inl e ↦ rw e (Kept-refl chord)
      | inr e ↦ rw e (steady round chord request)
    ]

resolve_answer-Kept :
    (again : Chord → FindRequest → Outcome (Chord × Bool)) (i : ℕ) (request : FindRequest)
    (before : Chord) (r : Chord × Option Response)
    → Kept before r.0
    → length before.node.finger_table ≡ key_size + 1
    → i < key_size
    → ((c : Chord) (q : FindRequest) → Kept before c → Returns (again c q) (λ s. Kept before s.0))
    → Returns (resolve_answer again i request r) (λ s. Kept before s.0)
unfolding resolve_answer
resolve_answer-Kept again i request before (chord, none) k l h f =
    set_then-Kept before chord i unknown false k l h
resolve_answer-Kept again i request before (chord, some response) k l h f =
    elim (Bool-cases response.is_successor) [
      | inl e ↦ rw e (set_then-Kept before chord i response.node_address true k l h)
      | inr e ↦ elim (Bool-cases (same response.node_address chord.node.node_address)) [
        | inl d ↦ rw (e, d) (set_then-Kept before chord i chord.node.node_address true k l h)
        | inr d ↦
            rw (e, d) (f chord (record request { query_node_address = response.node_address }) k)
      ]
    ]

resolve_from-Kept :
    (network : Network) (rounds : ℕ) (before chord : Chord) (i : ℕ) (request : FindRequest)
    → Steady network
    → Kept before chord
    → length before.node.finger_table ≡ key_size + 1
    → i < key_size
    → Returns (resolve_from network rounds chord i request) (λ r. Kept before r.0)
unfolding resolve_from
resolve_from-Kept network zero before chord i request steady k l h = k
resolve_from-Kept network (suc rounds) before chord i request steady k l h =
    resolve_answer-Kept (λ c r. resolve_from network rounds c i r) i request before
      (call_find_successor network rounds chord request)
      (Kept-trans before chord _ k (call_find_successor-Kept network rounds chord request steady)) l
      h (λ c q v. resolve_from-Kept network rounds before c i q steady v l h)

-- A place in the table, if there is one.
abbrev pub Within : List FingerEntry → Option ℕ → Type 0
Within fingers none = Unit
Within fingers (some n) = n < length fingers

pub next_valid_from-Within :
    (rounds n : ℕ) (fingers : List FingerEntry)
    → n + rounds ≤ length fingers
    → Returns (next_valid_from rounds n fingers) (Within fingers)
unfolding next_valid_from
next_valid_from-Within zero n fingers h = tt
next_valid_from-Within (suc rounds) n fingers h =
    let (f, e, g) = index_ok fingers n (omega arith) in
    elim (Bool-cases (same f.node_address unknown)) [
      | inl d ↦ rw (e, d) (next_valid_from-Within rounds (n + 1) fingers (omega arith))
      | inr d ↦ rw (e, d) (omega arith)
    ]

node_to_ask_lem :
    (chord : Chord) (address : String) (i : ℕ)
    → length chord.node.finger_table ≡ key_size + 1
    → i < key_size
    → Returns (node_to_ask chord address i) (λ _. Unit)
unfolding node_to_ask get_next_valid_finger
node_to_ask_lem chord address i l h = elim (Bool-cases (same address unknown)) [
  | inr e ↦ rw e tt
  | inl e ↦ rw e (
      then_returns _ (next_valid_from (key_size + 1 - i) i chord.node.finger_table) _
        (next_valid_from-Within (key_size + 1 - i) i chord.node.finger_table (omega arith)) found)
]
  where
    found :
        (o : Option ℕ)
        → Within chord.node.finger_table o
        → Returns
            (elim o [
              | none ↦ ok chord.node.predecessor
              | some n ↦ index chord.node.finger_table n >>= λ finger. ok finger.node_address
            ])
            (λ _. Unit)
    found none w = tt
    found (some n) w = let (f, e, g) = index_ok chord.node.finger_table n w in rw e tt

resolve_finger-Kept :
    (network : Network) (chord : Chord) (address : String) (i : ℕ)
    → Steady network
    → length chord.node.finger_table ≡ key_size + 1
    → i < key_size
    → Returns (resolve_finger network chord address i) (λ r. Kept chord r.0)
unfolding resolve_finger
resolve_finger-Kept network chord address i steady l h =
    then_returns _ (node_to_ask chord address i) _ (node_to_ask_lem chord address i l h) (λ asked _.
      elim (Bool-cases (same asked unknown)) [
        | inl e ↦ rw e (Kept-refl chord)
        | inr e ↦
            let (f, g, at) = index_ok chord.node.finger_table i (omega arith) in
            elim (Bool-cases (same asked chord.node.node_address)) [
              | inl d ↦
                  rw (e, g, d)
                    (set_then-Kept chord chord i chord.node.node_address true (Kept-refl chord) l h)
              | inr d ↦
                  rw (e, g, d)
                    (resolve_from-Kept network 32 chord chord i
                      (record { query_identifier = f.identifier; query_node_address = asked })
                      steady (Kept-refl chord) l h)
            ]
      ])

-- The cursor moves on among fingers 0 to 159, and finger 160 and the table's length stay.
pub record Advanced (before after : Chord) : Type 0 where
  pub counted : length after.node.finger_table ≡ key_size + 1
  pub last :
      get_elem? after.node.finger_table key_size ≡ get_elem? before.node.finger_table key_size
  pub cursor : after.node.next_finger ≡ (before.node.next_finger + 1) % key_size
  pub in_range : after.node.next_finger < key_size

module _ (sha1 : String → ℕ) where
  advance_finger-Advanced :
      (chord : Chord)
      → 0 < length chord.node.successors
      → length chord.node.finger_table ≡ key_size + 1
      → Returns (advance_finger sha1 chord) (λ r. Advanced chord r.0)
  unfolding advance_finger
  advance_finger-Advanced chord s l =
      let next = (chord.node.next_finger + 1) % key_size in
      let (succ, e, _) = index_ok chord.node.successors 0 s in
      let (f, g, _) = index_ok chord.node.finger_table next (omega arith) in
      let direct =
        not (same succ unknown)
        && between chord.node.identifier f.identifier (hash_string sha1 succ) true in
      let finger : FingerEntry = record f {
        node_address = if direct then succ else f.node_address;
      } in
      rw (e, g, store_ok chord.node.finger_table next finger (omega arith))
        (record {
          counted = omega (arith, length-set chord.node.finger_table next finger);
          last =
              get_elem?-set_ne chord.node.finger_table next key_size finger
                (λ x. absurd (omega arith));
          cursor = refl;
          in_range = omega arith;
        })

  -- On a node with 161 fingers and a successor, and while other handlers neither resize the table
  -- nor touch finger 160 or the cursor, `fix_fingers` returns, moves the cursor on by one modulo
  -- 160, and leaves finger 160 as it was.
  pub fix_fingers-Advanced :
      (network : Network) (chord : Chord)
      → Steady network
      → 0 < length chord.node.successors
      → length chord.node.finger_table ≡ key_size + 1
      → Returns (fix_fingers sha1 network chord) (Advanced chord)
  unfolding fix_fingers
  fix_fingers-Advanced network chord steady s l =
      then_returns _ (advance_finger sha1 chord) _ (advance_finger-Advanced chord s l) (λ r v.
        then_returns _ (resolve_finger network r.0 r.1 r.0.node.next_finger) _
          (resolve_finger-Kept network r.0 r.1 r.0.node.next_finger steady v.counted v.in_range)
          (λ x k. record {
            counted = k.counted ∙ v.counted;
            last = k.last ∙ v.last;
            cursor = k.cursor ∙ v.cursor;
            in_range = rw k.cursor v.in_range;
          }))
