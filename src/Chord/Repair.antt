-- ===== src/Chord/Repair.antt =====
-- How a node repairs its tables when a neighbour fails, and how it refreshes its fingers:
-- `getNextValidFinger`, `findNewSucc`, `clearDeadSucc`, `resolveFinger` and `FixFingers` of
-- Lab3_Chord/chord.go.
use tda596labs.Base.{
  if◌then◌else◌, Outcome, ok, ◌>>=◌, index, store, same, ℕ, zero, suc, ◌+◌, ◌-◌, ◌%◌, String, Bool,
  true, false, not, ◌&&◌, Option, none, some, List, [], ◌∷◌, ◌++◌,
}
use tda596labs.Chord.Ring.{key_size, between}
use tda596labs.Chord.Types.{unknown, FingerEntry, Chord, Response, FindRequest}
use tda596labs.Chord.Lookup.{hash_string}
use tda596labs.Chord.Membership.{with_successors}

abbrev pub with_fingers : Chord → List FingerEntry → Chord
with_fingers chord fingers = record chord { node = record (chord.node) { finger_table = fingers } }

-- The loop of `getNextValidFinger`, with `rounds` fingers left; `none` is -1.
unfoldable pub next_valid_from : ℕ → ℕ → List FingerEntry → Outcome (Option ℕ)
next_valid_from zero n fingers = ok none
next_valid_from (suc rounds) n fingers =
    let rest = next_valid_from rounds (n + 1) fingers in
    index fingers n >>= λ f. if not (same f.node_address unknown) then ok (some n) else rest

unfoldable pub get_next_valid_finger : Chord → ℕ → Outcome (Option ℕ)
get_next_valid_finger chord start =
    next_valid_from (key_size + 1 - start) start chord.node.finger_table

-- `for n := …; n > 0; n--`: fingers `count` down to 1 get the address.
unfoldable pub fill_fingers : ℕ → String → List FingerEntry → Outcome (List FingerEntry)
fill_fingers zero address fingers = ok fingers
fill_fingers (suc n) address fingers = do
  finger ← index fingers (suc n)
  fingers' ← store fingers (suc n) (record finger { node_address = address })
  fill_fingers n address fingers'

-- `findNewSucc` behind its first test: no valid finger, or the first one.
unfoldable pub adopt_finger : Chord → Option ℕ → Outcome Chord
adopt_finger chord none = store chord.node.successors 0 chord.node.predecessor >>= λ succs.
    ok (with_successors chord succs)
adopt_finger chord (some valid) = index chord.node.finger_table valid >>= λ finger.
    fill_fingers (valid - 1) finger.node_address chord.node.finger_table >>= λ fingers.
    ok (with_fingers chord fingers)

-- `findNewSucc` on the successor list of the node: with more than one entry it shifts the list.
unfoldable pub shift_or_adopt : Chord → List String → Outcome Chord
shift_or_adopt chord (_ ∷ second ∷ rest) =
    ok (with_successors chord ((second ∷ rest) ++ unknown ∷ []))
shift_or_adopt chord _ = get_next_valid_finger chord 1 >>= adopt_finger chord

unfoldable pub find_new_succ : Chord → Outcome Chord
find_new_succ chord = shift_or_adopt chord chord.node.successors

-- The first loop of `clearDeadSucc`: the successors that stay, and an "X" for each that failed.
unfoldable pub collapse : String → List String → List String × List String
collapse failed_node [] = ([], [])
collapse failed_node (succ ∷ succs) =
    let rest = collapse failed_node succs in
    if same succ failed_node then (rest.0, unknown ∷ rest.1) else (succ ∷ rest.0, rest.1)

-- The second loop: the largest finger that points to the failed node, and the address behind it.
unfoldable pub last_failed : ℕ → String → String → List FingerEntry → Outcome (ℕ × String)
last_failed zero failed_node succ fingers = ok (key_size, succ)
last_failed (suc n) failed_node succ fingers = index fingers (suc n) >>= λ finger.
    let more = last_failed n failed_node finger.node_address fingers in
    if same failed_node finger.node_address then ok (suc n, succ) else more

-- The third loop: the block of fingers that point to the failed node gets the new address.
unfoldable pub replace_block : ℕ → String → String → List FingerEntry → Outcome (List FingerEntry)
replace_block zero failed_node succ fingers = ok fingers
replace_block (suc n) failed_node succ fingers = index fingers (suc n) >>= λ finger.
    let more = store fingers (suc n) (record finger { node_address = succ }) >>= λ fingers'.
    replace_block n failed_node succ fingers' in
    if same finger.node_address failed_node then more else ok fingers

unfoldable pub clear_dead_succ : Chord → Outcome Chord
clear_dead_succ chord = do
  failed_node ← index chord.node.successors 0
  found ← last_failed key_size failed_node chord.node.predecessor chord.node.finger_table
  fingers ← replace_block found.0 failed_node found.1 chord.node.finger_table
  ok (
      with_fingers
        (with_successors chord (
          (collapse failed_node chord.node.successors).0
          ++ (collapse failed_node chord.node.successors).1))
        fingers)

-- The rest of the ring while the lock is released: query `round` leaves the node in a new state,
-- and answers, or does not.
abbrev pub Network : Type 0
Network = ℕ → Chord → FindRequest → Chord × Option Response

unfoldable pub set_finger : Chord → ℕ → String → Outcome Chord
set_finger chord finger_index address = do
  finger ← index chord.node.finger_table finger_index
  fingers ← store chord.node.finger_table finger_index (record finger { node_address = address })
  ok (with_fingers chord fingers)

-- `CallFindSuccessor`: a query to ourselves is answered at once.
unfoldable pub call_find_successor : Network → ℕ → Chord → FindRequest → Chord × Option Response
call_find_successor network round chord request =
    if same request.query_node_address chord.node.node_address
    then (
      chord,
      some (record { is_successor = true; node_address = chord.node.node_address; identifier = 0 }),
    )
    else network round chord request

-- What `resolveFinger` does with one answer; `again` is the rest of its loop.
unfoldable pub resolve_answer :
    (Chord → FindRequest → Outcome (Chord × Bool))
    → ℕ
    → FindRequest
    → Chord × Option Response
    → Outcome (Chord × Bool)
resolve_answer again finger_index request (chord, none) =
    set_finger chord finger_index unknown >>= λ c. ok (c, false)
resolve_answer again finger_index request (chord, some response) = elim (response.is_successor) [
  | true ↦ set_finger chord finger_index response.node_address >>= λ c. ok (c, true)
  | false ↦ elim (same response.node_address chord.node.node_address) [
    | true ↦ set_finger chord finger_index chord.node.node_address >>= λ c. ok (c, true)
    | false ↦ again chord (record request { query_node_address = response.node_address })
  ]
]

-- The loop of `resolveFinger`, with `rounds` of its 32 left.
unfoldable pub resolve_from : Network → ℕ → Chord → ℕ → FindRequest → Outcome (Chord × Bool)
resolve_from network zero chord finger_index request = ok (chord, true)
resolve_from network (suc rounds) chord finger_index request =
    resolve_answer (λ c r. resolve_from network rounds c finger_index r) finger_index request
      (call_find_successor network rounds chord request)

-- Whom `resolveFinger` asks if the finger itself is unknown.
unfoldable pub node_to_ask : Chord → String → ℕ → Outcome String
node_to_ask chord address finger_index =
    if same address unknown
    then (get_next_valid_finger chord finger_index >>= elim [
      | none ↦ ok chord.node.predecessor
      | some n ↦ index chord.node.finger_table n >>= λ finger. ok finger.node_address
    ])
    else ok address

unfoldable pub resolve_finger : Network → Chord → String → ℕ → Outcome (Chord × Bool)
resolve_finger network chord address finger_index =
    node_to_ask chord address finger_index >>= λ asked.
    if same asked unknown
    then ok (chord, false)
    else (index chord.node.finger_table finger_index >>= λ finger.
        if same asked chord.node.node_address
        then (set_finger chord finger_index chord.node.node_address >>= λ c. ok (c, true))
        else resolve_from network 32 chord finger_index
            (record { query_identifier = finger.identifier; query_node_address = asked }))

module _ (sha1 : String → ℕ) where
  -- The first half of `FixFingers`: the next finger, with what our own successor settles of it.
  unfoldable pub advance_finger : Chord → Outcome (Chord × String)
  advance_finger chord = do
    succ ← index chord.node.successors 0
    let valid_succ = not (same succ unknown)
    let next = (chord.node.next_finger + 1) % key_size
    finger ← index chord.node.finger_table next
    let direct =
        valid_succ && between chord.node.identifier finger.identifier (hash_string sha1 succ) true
    let address = if direct then succ else finger.node_address
    fingers ← store chord.node.finger_table next (record finger { node_address = address })
    let chord' : Chord = record chord {
      node = record (chord.node) { next_finger = next; finger_table = fingers };
    }
    ok (chord', if valid_succ && same address chord.node.node_address then succ else address)

  -- `FixFingers`; the result of `resolveFinger` is dropped.
  unfoldable pub fix_fingers : Network → Chord → Outcome Chord
  fix_fingers network chord = advance_finger chord >>= λ r.
      resolve_finger network r.0 r.1 r.0.node.next_finger >>= λ x. ok x.0
