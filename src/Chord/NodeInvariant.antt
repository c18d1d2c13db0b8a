-- ===== src/Chord/NodeInvariant.antt =====
-- No handler and no client call of Lab3_Chord breaks a node's tables or runs out of their range.
use tda596labs.Base.{
  if◌then◌else◌, Bool-cases, length, get_elem?, set, length-append, length-set, All, All-get_elem?,
  All-set, ok, ◌>>=◌, index_ok, store_ok, Returns, then_returns, same, ℕ, zero, suc, ◌+◌, ◌-◌, ◌%◌,
  ◌≤◌, ◌<◌, String, ◌≡◌, refl, ap, ◌∙◌, inl, inr, true, not, ◌&&◌, Option, none, some, List, [],
  ◌∷◌, arith,
}
use tda596labs.Chord.Ring.{key_size, hash_mod, between}
use tda596labs.Chord.Types.{unknown, FingerEntry, Chord, StabilizeResponse}
use tda596labs.Chord.Lookup.{hash_string}
use tda596labs.Chord.Membership.{with_successors, with_predecessor, copy_succs, verify_succs}
use tda596labs.Chord.Repair.{
  next_valid_from, get_next_valid_finger, fill_fingers, adopt_finger, shift_or_adopt, find_new_succ,
  last_failed, replace_block, clear_dead_succ, set_finger, advance_finger,
}
use tda596labs.Chord.RepairLaws.{length-collapse, last_failed_lem}
use tda596labs.Chord.NodeRuns.{IsNode}
use tda596labs.Chord.FingerLaws.{Within, next_valid_from-Within}

pub with_successors-IsNode :
    (s : ℕ) (c : Chord) (succs : List String)
    → IsNode s c
    → length succs ≡ s
    → IsNode s (with_successors c succs)
with_successors-IsNode s c succs v e = record {
  on_ring = v.on_ring;
  fingers_counted = v.fingers_counted;
  fingers_on_ring = v.fingers_on_ring;
  successors_counted = e;
}

pub with_predecessor-IsNode :
    (s : ℕ) (c : Chord) (pred : String) → IsNode s c → IsNode s (with_predecessor c pred)
with_predecessor-IsNode s c pred v = record {
  on_ring = v.on_ring;
  fingers_counted = v.fingers_counted;
  fingers_on_ring = v.fingers_on_ring;
  successors_counted = v.successors_counted;
}

-- Fingers of a full table, with identifiers on the ring.
abbrev Table : List FingerEntry → Type 0
Table fingers = (length fingers ≡ key_size + 1) × All (λ f. f.identifier < hash_mod) fingers

set-Table :
    (fingers : List FingerEntry) (i : ℕ) (f : FingerEntry) (address : String)
    → Table fingers
    → get_elem? fingers i ≡ some f
    → Table (set fingers i (record f { node_address = address }))
set-Table fingers i f address t g = (
  length-set fingers i (record f { node_address = address }) ∙ t.0,
  All-set _ fingers i _ t.1 (All-get_elem? _ fingers i t.1 g),
)

pub set_finger-IsNode :
    (s : ℕ) (c : Chord) (i : ℕ) (address : String)
    → IsNode s c
    → i ≤ key_size
    → Returns (set_finger c i address) (IsNode s)
unfolding set_finger
set_finger-IsNode s c i address v h =
    let (f, e, g) = index_ok c.node.finger_table i (omega (arith, v.fingers_counted)) in
    let t = set-Table c.node.finger_table i f address (v.fingers_counted, v.fingers_on_ring) g in
    rw
      (
        e,
        store_ok c.node.finger_table i (record f { node_address = address })
            (omega (arith, v.fingers_counted)),
      )
      (record {
        on_ring = v.on_ring;
        fingers_counted = t.0;
        fingers_on_ring = t.1;
        successors_counted = v.successors_counted;
      })

pub advance_finger-IsNode :
    (sha1 : String → ℕ) (s : ℕ) (c : Chord)
    → IsNode (suc s) c
    → Returns (advance_finger sha1 c >>= λ r. ok r.0) (IsNode (suc s))
unfolding advance_finger
advance_finger-IsNode sha1 s c v =
    let next = (c.node.next_finger + 1) % key_size in
    let (succ, e, _) = index_ok c.node.successors 0 (omega (arith, v.successors_counted)) in
    let (f, g, at) = index_ok c.node.finger_table next (omega (arith, v.fingers_counted)) in
    let direct =
      not (same succ unknown)
      && between c.node.identifier f.identifier (hash_string sha1 succ) true in
    let address : String = if direct then succ else f.node_address in
    let t =
      set-Table c.node.finger_table next f address (v.fingers_counted, v.fingers_on_ring) at in
    rw
      (
        e,
        g,
        store_ok c.node.finger_table next (record f { node_address = address })
            (omega (arith, v.fingers_counted)),
      )
      (record {
        on_ring = v.on_ring;
        fingers_counted = t.0;
        fingers_on_ring = t.1;
        successors_counted = v.successors_counted;
      })

replace_block-Table :
    (n : ℕ) (x succ : String) (fingers : List FingerEntry)
    → n ≤ key_size
    → Table fingers
    → Returns (replace_block n x succ fingers) Table
unfolding replace_block
replace_block-Table zero x succ fingers h t = t
replace_block-Table (suc n) x succ fingers h t =
    let (f, e, g) = index_ok fingers (suc n) (omega (arith, t.0)) in
    elim (Bool-cases (same f.node_address x)) [
      | inr d ↦ rw (e, d) t
      | inl d ↦
          rw
            (e, d, store_ok fingers (suc n) (record f { node_address = succ }) (omega (arith, t.0)))
            (replace_block-Table n x succ (set fingers (suc n) (record f { node_address = succ }))
              (omega arith) (set-Table fingers (suc n) f succ t g))
    ]

pub clear_dead_succ-IsNode :
    (s : ℕ) (c : Chord) → IsNode (suc s) c → Returns (clear_dead_succ c) (IsNode (suc s))
unfolding clear_dead_succ
clear_dead_succ-IsNode s c v =
    let (failed, e, _) = index_ok c.node.successors 0 (omega (arith, v.successors_counted)) in
    rw e (
      then_returns {B = Chord} _
        (last_failed key_size failed c.node.predecessor c.node.finger_table) _
        (last_failed_lem key_size failed c.node.predecessor c.node.finger_table (omega arith)
          v.fingers_counted)
        (λ found b.
          then_returns {B = Chord} _ (replace_block found.0 failed found.1 c.node.finger_table) _
            (replace_block-Table found.0 failed found.1 c.node.finger_table b
              (v.fingers_counted, v.fingers_on_ring))
            (λ fingers t. record {
              on_ring = v.on_ring;
              fingers_counted = t.0;
              fingers_on_ring = t.1;
              successors_counted = length-collapse failed c.node.successors ∙ v.successors_counted;
            })))

copy_succs_lem :
    (ours theirs : List String)
    → length ours ≤ length theirs
    → Returns (copy_succs ours theirs) (λ r. length r ≡ length ours)
unfolding copy_succs
copy_succs_lem [] theirs h = refl
copy_succs_lem (x ∷ ours) [] h = absurd (omega arith)
copy_succs_lem (x ∷ ours) (y ∷ theirs) h = elim (Bool-cases (same y unknown)) [
  | inl e ↦ rw e refl
  | inr e ↦ rw e (
      then_returns _ (copy_succs ours theirs) _ (copy_succs_lem ours theirs (omega arith))
        (λ r p. ap suc p))
]

pub verify_succs-IsNode :
    (s : ℕ) (c : Chord) (response : StabilizeResponse)
    → IsNode s c
    → s ≤ length response.node_successors
    → Returns (verify_succs c response) (IsNode s)
unfolding verify_succs
verify_succs-IsNode s c response v h = go c.node.successors v.successors_counted
  where
    go :
        (l : List String)
        → length l ≡ s
        → Returns
            (elim l [
              | [] ↦ ok c
              | first ∷ rest ↦ copy_succs rest response.node_successors >>= λ succs.
                  ok (with_successors c (first ∷ succs))
            ])
            (IsNode s)
    go [] e = v
    go (first ∷ rest) e =
        then_returns _ (copy_succs rest response.node_successors) _
          (copy_succs_lem rest response.node_successors (omega (arith, h, e)))
          (λ r p. with_successors-IsNode s c (first ∷ r) v (omega (arith, p, e)))

fill_fingers-Table :
    (n : ℕ) (address : String) (fingers : List FingerEntry)
    → n ≤ key_size
    → Table fingers
    → Returns (fill_fingers n address fingers) Table
unfolding fill_fingers
fill_fingers-Table zero address fingers h t = t
fill_fingers-Table (suc n) address fingers h t =
    let (f, e, g) = index_ok fingers (suc n) (omega (arith, t.0)) in
    rw (e, store_ok fingers (suc n) (record f { node_address = address }) (omega (arith, t.0)))
      (fill_fingers-Table n address (set fingers (suc n) (record f { node_address = address }))
        (omega arith) (set-Table fingers (suc n) f address t g))

adopt_finger-IsNode :
    (s : ℕ) (c : Chord) (o : Option ℕ)
    → IsNode (suc s) c
    → Within c.node.finger_table o
    → Returns (adopt_finger c o) (IsNode (suc s))
unfolding adopt_finger
adopt_finger-IsNode s c none v h =
    rw (store_ok c.node.successors 0 c.node.predecessor (omega (arith, v.successors_counted))) (
      with_successors-IsNode (suc s) c (set c.node.successors 0 c.node.predecessor) v
        (length-set c.node.successors 0 c.node.predecessor ∙ v.successors_counted))
adopt_finger-IsNode s c (some n) v h =
    let (f, e, _) = index_ok c.node.finger_table n h in
    rw e (
      then_returns {B = Chord} _ (fill_fingers (n - 1) f.node_address c.node.finger_table) _
        (fill_fingers-Table (n - 1) f.node_address c.node.finger_table
          (omega (arith, h, v.fingers_counted)) (v.fingers_counted, v.fingers_on_ring))
        (λ fingers t. record {
          on_ring = v.on_ring;
          fingers_counted = t.0;
          fingers_on_ring = t.1;
          successors_counted = v.successors_counted;
        }))

shift_or_adopt-IsNode :
    (s : ℕ) (c : Chord) (succs : List String)
    → IsNode (suc s) c
    → length succs ≡ suc s
    → Returns (shift_or_adopt c succs) (IsNode (suc s))
unfolding shift_or_adopt get_next_valid_finger
shift_or_adopt-IsNode s c [] v h = absurd (omega arith)
shift_or_adopt-IsNode s c (x ∷ y ∷ rest) v h =
    with_successors-IsNode (suc s) c _ v (omega (arith, h, length-append rest (unknown ∷ [])))
shift_or_adopt-IsNode s c (x ∷ []) v h =
    then_returns _ (next_valid_from key_size 1 c.node.finger_table) _
      (next_valid_from-Within key_size 1 c.node.finger_table (omega (arith, v.fingers_counted)))
      (λ o w. adopt_finger-IsNode s c o v w)

pub find_new_succ-IsNode :
    (s : ℕ) (c : Chord) → IsNode (suc s) c → Returns (find_new_succ c) (IsNode (suc s))
unfolding find_new_succ
find_new_succ-IsNode s c v = shift_or_adopt-IsNode s c c.node.successors v v.successors_counted
