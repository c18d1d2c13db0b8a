-- ===== src/Chord/RepairLaws.antt =====
-- What the repairs of Lab3_Chord/chord.go restore.
use tda596labs.Base.{
  ◌==◌, if◌then◌else◌, Bool-cases, length, get_elem?, set, replicate, length-append,
  length-replicate, length-set, index, index_ok, store_ok, Returns, then_returns, returns_map, same,
  same_iff, same_refl, same_of_eq, ℕ, zero, suc, ◌+◌, ◌-◌, ◌≤◌, ◌<◌, String, ◌≡◌, refl, sym, ap,
  subst, ◌∙◌, ◌≢◌, inl, inr, true, Option, none, some, List, [], ◌∷◌, ◌++◌, arith,
}
use tda596labs.Chord.Ring.{key_size}
use tda596labs.Chord.Types.{unknown, FingerEntry, Chord}
use tda596labs.Chord.Repair.{
  next_valid_from, get_next_valid_finger, collapse, last_failed, replace_block, clear_dead_succ,
}

-- The answer is a finger of the range that is known.
abbrev pub FoundFinger : List FingerEntry → ℕ → ℕ → Option ℕ → Type 0
FoundFinger fingers low high none = ⊥
FoundFinger fingers low high (some n) =
    (low ≤ n)
    × (n ≤ high)
    × (f : FingerEntry) × (get_elem? fingers n ≡ some f)
    × (f.node_address ≢ unknown)

next_valid_from_lem :
    (rounds n k : ℕ) (fingers : List FingerEntry) (finger : FingerEntry)
    → n ≤ k
    → k < n + rounds
    → n + rounds ≤ length fingers
    → get_elem? fingers k ≡ some finger
    → finger.node_address ≢ unknown
    → Returns (next_valid_from rounds n fingers) (FoundFinger fingers n k)
unfolding next_valid_from
next_valid_from_lem zero n k fingers finger a b c e known = absurd (omega arith)
next_valid_from_lem (suc rounds) n k fingers finger a b c e known =
    let (f, i, g) = index_ok fingers n (omega arith) in
    elim (Bool-cases (same f.node_address unknown)) [
      | inr h ↦
          rw (i, h) (omega arith, a, f, g, λ x. cc (sym h ∙ same_of_eq f.node_address unknown x))
      | inl h ↦
          rw (i, h)
            (returns_map _ (next_valid_from rounds (n + 1) fingers)
              (next_valid_from_lem rounds (n + 1) k fingers finger (later f g h) (omega arith)
                (omega arith) e known)
              widen)
    ]
  where
    later :
        (f : FingerEntry)
        → get_elem? fingers n ≡ some f
        → same f.node_address unknown ≡ true
        → n + 1 ≤ k
    later f g h = elim (Bool-cases (n == k)) [
      | inr d ↦ ground arith
      | inl d ↦
          let s : n ≡ k = ground arith in
          let t : f ≡ finger = cc (sym (rw s at g) ∙ e) in
          absurd (
            known (
              subst (λ (x : FingerEntry). x.node_address ≡ unknown) t
                ((same_iff f.node_address unknown).0 h)))
    ]

    widen : (r : Option ℕ) → FoundFinger fingers (n + 1) k r → FoundFinger fingers n k r
    widen none v = v
    widen (some m) v = (omega arith, v.1, v.2, v.3, v.4)

-- With a table of 161 fingers, `get_next_valid_finger` returns, and if finger `k` of the range from
-- `start` to 160 is known, then it finds a known finger of the range at or before `k`.
pub get_next_valid_finger_first :
    (chord : Chord) (start k : ℕ) (finger : FingerEntry)
    → length chord.node.finger_table ≡ key_size + 1
    → start ≤ k
    → k ≤ key_size
    → get_elem? chord.node.finger_table k ≡ some finger
    → finger.node_address ≢ unknown
    → Returns (get_next_valid_finger chord start) (FoundFinger chord.node.finger_table start k)
unfolding get_next_valid_finger
get_next_valid_finger_first chord start k finger h a b e known =
    next_valid_from_lem (key_size + 1 - start) start k chord.node.finger_table finger a
      (omega arith) (omega arith) e known

-- The list without an address, and how often the address stands in it.
abbrev pub without : String → List String → List String
without x [] = []
without x (s ∷ ss) = if same s x then without x ss else s ∷ without x ss

abbrev pub count : String → List String → ℕ
count x [] = 0
count x (s ∷ ss) = if same s x then suc (count x ss) else count x ss

collapse_lem :
    (x : String) (ss : List String) → collapse x ss ≡ (without x ss, replicate (count x ss) unknown)
unfolding collapse
collapse_lem x [] = refl
collapse_lem x (s ∷ ss) = elim (Bool-cases (same s x)) [
  | inl e ↦ rw (e, collapse_lem x ss)
  | inr e ↦ rw (e, collapse_lem x ss)
]

length-without : (x : String) (ss : List String) → length (without x ss) + count x ss ≡ length ss
length-without x [] = refl
length-without x (s ∷ ss) = ground (arith, length-without x ss)

pub length-collapse :
    (x : String) (ss : List String) → length ((collapse x ss).0 ++ (collapse x ss).1) ≡ length ss
length-collapse x ss = rw (collapse_lem x ss) (
    omega (
      arith,
      length-append (without x ss) (replicate (count x ss) unknown),
      length-replicate (count x ss) unknown,
      length-without x ss,
    ))

pub last_failed_lem :
    (n : ℕ) (x succ : String) (fingers : List FingerEntry)
    → n ≤ key_size
    → length fingers ≡ key_size + 1
    → Returns (last_failed n x succ fingers) (λ r. r.0 ≤ key_size)
unfolding last_failed
last_failed_lem zero x succ fingers h l = omega arith
last_failed_lem (suc n) x succ fingers h l =
    let (f, e, _) = index_ok fingers (suc n) (omega arith) in
    elim (Bool-cases (same x f.node_address)) [
      | inl g ↦ rw (e, g) h
      | inr g ↦ rw (e, g) (last_failed_lem n x f.node_address fingers (omega arith) l)
    ]

replace_block_lem :
    (n : ℕ) (x succ : String) (fingers : List FingerEntry)
    → n ≤ key_size
    → length fingers ≡ key_size + 1
    → Returns (replace_block n x succ fingers) (λ r. length r ≡ key_size + 1)
unfolding replace_block
replace_block_lem zero x succ fingers h l = l
replace_block_lem (suc n) x succ fingers h l =
    let (f, e, _) = index_ok fingers (suc n) (omega arith) in
    let f' : FingerEntry = record f { node_address = succ } in
    elim (Bool-cases (same f.node_address x)) [
      | inr g ↦ rw (e, g) l
      | inl g ↦
          rw (e, g, store_ok fingers (suc n) f' (omega arith))
            (replace_block_lem n x succ (set fingers (suc n) f') (omega arith)
              (length-set fingers (suc n) f' ∙ l))
    ]

-- `clear_dead_succ` on a node with 161 fingers and a first successor returns: every occurrence of
-- that failed successor leaves the list, the others keep their order, the list is filled up with
-- unknown entries to the length that it had, and the finger table keeps its length.
pub clear_dead_succ_lem :
    (chord : Chord) (failed : String) (rest : List String)
    → chord.node.successors ≡ failed ∷ rest
    → length chord.node.finger_table ≡ key_size + 1
    → Returns (clear_dead_succ chord) (λ after.
      (after.node.successors ≡ without failed rest ++ replicate (suc (count failed rest)) unknown)
      × (length after.node.successors ≡ length chord.node.successors)
      × (length after.node.finger_table ≡ key_size + 1))
unfolding clear_dead_succ index
clear_dead_succ_lem chord failed rest e l = rw e (
    then_returns {B = Chord} _
      (last_failed key_size failed chord.node.predecessor chord.node.finger_table) _
      (last_failed_lem key_size failed chord.node.predecessor chord.node.finger_table (omega arith)
        l)
      (λ found b.
        then_returns {B = Chord} _ (replace_block found.0 failed found.1 chord.node.finger_table) _
          (replace_block_lem found.0 failed found.1 chord.node.finger_table b l)
          (λ fingers c. (filled, ap length filled ∙ counted, c))))
  where
    filled :
        (collapse failed (failed ∷ rest)).0 ++ (collapse failed (failed ∷ rest)).1
        ≡ without failed rest ++ replicate (suc (count failed rest)) unknown
    filled = rw (collapse_lem failed (failed ∷ rest), same_refl failed)

    counted :
        length (without failed rest ++ replicate (suc (count failed rest)) unknown)
        ≡ suc (length rest)
    counted = omega (
      arith,
      length-append (without failed rest) (replicate (suc (count failed rest)) unknown),
      length-replicate (suc (count failed rest)) unknown,
      length-without failed rest,
    )
