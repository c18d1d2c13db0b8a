-- ===== src/Chord/LookupLaws.antt =====
-- What `find` of Lab3_Chord/chord.go answers.
use tda596labs.Base.{
  Bool-cases, length, get_elem?, All, All-get_elem?, index_ok, Returns, returns_map, same,
  same_of_eq, ℕ, zero, suc, ◌+◌, ◌≤◌, ◌<◌, String, ◌≡◌, refl, sym, ap, subst, ◌∙◌, ◌≢◌, ◌⊎◌, inl,
  inr, true, false, some, List, [], ◌∷◌, ◌++◌, arith,
}
use tda596labs.Chord.Ring.{key_size, hash_mod, mod_ring, between, offset, between_inclusive}
use tda596labs.Chord.Types.{
  unknown, RetCode, solonode, mysucc, iamsucc, passalong, FingerEntry, Chord, Response,
}
use tda596labs.Chord.Lookup.{hash_string, closest_from, closest_preceeding_node, find_from, find}

-- A node after `initClient`: 161 fingers with identifiers on the ring, and a successor list.
pub record IsReady (chord : Chord) : Type 0 where
  pub on_ring : chord.node.identifier < hash_mod
  pub fingers_counted : length chord.node.finger_table ≡ key_size + 1
  pub fingers_on_ring : All (λ f. f.identifier < hash_mod) chord.node.finger_table
  pub has_successor : 0 < length chord.node.successors

module _ (sha1 : String → ℕ) (chord : Chord) (identifier : ℕ) where
  -- The answer is a known successor, the first of the list at or after the identifier.
  pub record IsNearest (succs : List String) (r : Response) : Type 0 where
    pub before : List String
    pub after : List String
    pub listed : succs ≡ before ++ r.node_address ∷ after
    pub known : r.node_address ≢ unknown
    pub hashed : r.identifier ≡ hash_string sha1 r.node_address
    pub reached :
        offset chord.node.identifier identifier ≤ offset chord.node.identifier r.identifier
    pub earlier :
        All
          (λ s.
            offset chord.node.identifier (hash_string sha1 s)
            < offset chord.node.identifier identifier)
          before

  -- The answer is the node itself.
  pub record IsOwn (r : Response) : Type 0 where
    pub address : r.node_address ≡ chord.node.node_address
    pub ident : r.identifier ≡ chord.node.identifier

  -- The node to ask next is a finger at or after the identifier.
  pub record IsFinger (r : Response) : Type 0 where
    pub place : ℕ
    pub finger : FingerEntry
    pub in_table : get_elem? chord.node.finger_table place ≡ some finger
    pub address : r.node_address ≡ finger.node_address
    pub reached :
        offset chord.node.identifier identifier ≤ offset chord.node.identifier finger.identifier

  -- The meaning of the code that `find` returns with its answer, for the successors `succs`.
  abbrev pub Means : List String → RetCode → Response → Type 0
  Means succs solonode r = IsOwn r × (r.is_successor ≡ true)
  Means succs mysucc r = IsNearest succs r × (r.is_successor ≡ true)
  Means succs iamsucc r =
      IsOwn r
      × (r.is_successor ≡ true)
      × (offset (hash_string sha1 chord.node.predecessor) identifier
          ≤ offset (hash_string sha1 chord.node.predecessor) chord.node.identifier)
  Means succs passalong r = IsFinger r ⊎ (get_elem? chord.node.successors 0 ≡ some r.node_address)

  hash_on_ring : (s : String) → hash_string sha1 s < hash_mod
  unfolding hash_string mod_ring
  hash_on_ring s = omega arith

  module _ (ready : IsReady chord) (on_ring : identifier < hash_mod) where
    closest_from-Means :
        (n : ℕ) (response : Response)
        → n ≤ key_size
        → Returns
            (closest_from sha1 n chord identifier response)
            (λ r. (r.0 ≡ passalong) × Means [] passalong r.1)
    unfolding closest_from
    closest_from-Means zero response h =
        let (s, e, g) = index_ok chord.node.successors 0 ready.has_successor in rw e (refl, inr g)
    closest_from-Means (suc n) response h =
        let (f, e, g) =
          index_ok chord.node.finger_table (suc n) (omega (arith, ready.fingers_counted)) in
        let near : f.identifier < hash_mod =
          All-get_elem? _ chord.node.finger_table (suc n) ready.fingers_on_ring g in
        elim (Bool-cases (between chord.node.identifier identifier f.identifier true)) [
          | inl b ↦
              rw (e, b)
                (
                  refl,
                  inl (record {
                    place = suc n;
                    finger = f;
                    in_table = g;
                    address = refl;
                    reached = ground (
                      arith,
                      between_inclusive chord.node.identifier identifier f.identifier ready.on_ring
                          on_ring near,
                    );
                  }),
                )
          | inr b ↦ rw (e, b) (closest_from-Means n response (omega arith))
        ]

    IsNearest-skip :
        (s : String) (succs : List String) (r : Response)
        → between chord.node.identifier identifier (hash_string sha1 s) true ≡ false
        → IsNearest succs r
        → IsNearest (s ∷ succs) r
    IsNearest-skip s succs r b v = record {
      before = s ∷ v.before;
      after = v.after;
      listed = ap (λ l. s ∷ l) v.listed;
      known = v.known;
      hashed = v.hashed;
      reached = v.reached;
      earlier = (
        ground (
          arith,
          between_inclusive chord.node.identifier identifier (hash_string sha1 s) ready.on_ring
              on_ring (hash_on_ring s),
        ),
        v.earlier,
      );
    }

    Means-skip :
        (s : String) (succs : List String) (code : RetCode) (r : Response)
        → between chord.node.identifier identifier (hash_string sha1 s) true ≡ false
        → Means succs code r
        → Means (s ∷ succs) code r
    Means-skip s succs solonode r b v = v
    Means-skip s succs mysucc r b v = (IsNearest-skip s succs r b v.0, v.1)
    Means-skip s succs iamsucc r b v = v
    Means-skip s succs passalong r b v = v

    find_from-Means :
        (succs : List String) (response : Response)
        → Returns (find_from sha1 succs chord identifier response) (λ r. Means succs r.0 r.1)
    unfolding find_from closest_preceeding_node
    find_from-Means [] response =
        returns_map _ (closest_from sha1 key_size chord identifier response)
          (closest_from-Means key_size response (omega arith))
          (λ r v. subst (λ code. Means [] code r.1) (sym v.0) v.1)
    find_from-Means (s ∷ succs) response = elim (Bool-cases (same s unknown)) [
      | inl x ↦ rw x (record { address = refl; ident = refl }, refl)
      | inr x ↦
          elim (Bool-cases (between chord.node.identifier identifier (hash_string sha1 s) true)) [
            | inl b ↦
                rw (x, b)
                  (
                    record {
                      before = [];
                      after = succs;
                      listed = refl;
                      known = λ e. cc (sym x ∙ same_of_eq s unknown e);
                      hashed = refl;
                      reached = ground (
                        arith,
                        between_inclusive chord.node.identifier identifier (hash_string sha1 s)
                            ready.on_ring on_ring (hash_on_ring s),
                      );
                      earlier = tt;
                    },
                    refl,
                  )
            | inr b ↦
                elim (Bool-cases (
                  between (hash_string sha1 chord.node.predecessor) identifier chord.node.identifier
                    true)) [
                      | inl d ↦
                          rw (x, b, d)
                            (
                              record { address = refl; ident = refl },
                              refl,
                              ground (
                                arith,
                                between_inclusive (hash_string sha1 chord.node.predecessor)
                                    identifier chord.node.identifier
                                    (hash_on_ring chord.node.predecessor) on_ring ready.on_ring,
                              ),
                            )
                      | inr d ↦
                          rw (x, b, d)
                            (returns_map _ (find_from sha1 succs chord identifier response)
                              (find_from-Means succs response)
                              (λ r v. Means-skip s succs r.0 r.1 b v))
                    ]
          ]
    ]

    -- On a node that is set up, and for an identifier on the ring, `find` returns. With MYSUCC its
    -- answer is the first successor in the node's list that lies at or after the identifier,
    -- clockwise from the node, and every successor before it in the list lies before the
    -- identifier. With IAMSUCC the answer is the node itself, and the identifier lies between its
    -- predecessor and it. With SOLONODE the answer is the node itself. With PASSALONG the node to
    -- ask is a finger at or after the identifier, or the first successor.
    pub find-Means :
        (response : Response)
        → Returns (find sha1 chord identifier response) (λ r. Means chord.node.successors r.0 r.1)
    unfolding find
    find-Means response = find_from-Means chord.node.successors response
