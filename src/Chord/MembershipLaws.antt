-- ===== src/Chord/MembershipLaws.antt =====
-- What `Join`, `Notify`, `Stabilize` and `verifySuccs` of Lab3_Chord/chord.go guarantee.
use tda596labs.Base.{
  if◌then◌else◌, Bool-cases, length, ok, Returns, same, same_iff, same_refl, same_of_eq, same_ne, ℕ,
  ◌≤◌, ◌<◌, String, ◌≡◌, refl, sym, ap, subst, ◌∙◌, ◌≢◌, ◌⊎◌, inl, inr, Bool, true, false, List, [],
  ◌∷◌, arith,
}
use tda596labs.Chord.Ring.{hash_mod, mod_ring, between, offset, between_inclusive}
use tda596labs.Chord.Types.{
  unknown, RetCode, iamsucc, Chord, JoinRequest, Response, StabilizeRequest, StabilizeResponse,
  NotifyRequest, NotifyResponse,
}
use tda596labs.Chord.Lookup.{hash_string, find}
use tda596labs.Chord.LookupLaws.{IsReady, Means, find-Means}
use tda596labs.Chord.Membership.{
  with_successors, with_predecessor, copy_succs, verify_succs, stabilize, notify, admit, join,
}

-- The list that `verifySuccs` leaves: the response's entries up to its first unknown one, then ours.
abbrev pub take_known : List String → List String → List String
take_known [] theirs = []
take_known (ours ∷ rest) [] = ours ∷ rest
take_known (ours ∷ rest) (t ∷ theirs) =
    if same t unknown then ours ∷ rest else t ∷ take_known rest theirs

copy_succs_lem :
    (ours theirs : List String)
    → length ours ≤ length theirs
    → copy_succs ours theirs ≡ ok (take_known ours theirs)
unfolding copy_succs
copy_succs_lem [] theirs h = refl
copy_succs_lem (o ∷ ours) [] h = absurd (omega arith)
copy_succs_lem (o ∷ ours) (t ∷ theirs) h = elim (Bool-cases (same t unknown)) [
  | inl e ↦ rw e
  | inr e ↦ rw (e, copy_succs_lem ours theirs (omega arith)) (chosen (same o unknown) refl)
]
  where
    agreed : (x : String) → (if same t x then x else t) ≡ t
    agreed x = ground (arith, same_iff t x)

    chosen :
        (b : Bool)
        → same o unknown ≡ b
        → ok (
            (if same t (if b then t else o) then (if b then t else o) else t)
            ∷ take_known ours theirs)
          ≡ ok (t ∷ take_known ours theirs)
    chosen b e = ap (λ x. ok (x ∷ take_known ours theirs)) (agreed (if b then t else o))

-- A response at least as long as our list less its head makes `verify_succs` return: our first
-- successor stays, and behind it stand the response's successors up to its first unknown one, and
-- from there on the ones that we had.
pub verify_succs_lem :
    (chord : Chord) (response : StabilizeResponse) (first : String) (rest : List String)
    → chord.node.successors ≡ first ∷ rest
    → length rest ≤ length response.node_successors
    → verify_succs chord response
      ≡ ok (with_successors chord (first ∷ take_known rest response.node_successors))
unfolding verify_succs
verify_succs_lem chord response first rest e h =
    rw (e, verify_succs, copy_succs_lem rest response.node_successors h)

-- If the sender's address is a known one, then after `stabilize` the node knows a predecessor,
-- nothing else of the node has changed, the reply says `you_good` exactly when that predecessor
-- is the sender, and otherwise it carries that predecessor's address.
pub stabilize_agrees :
    (chord : Chord) (request : StabilizeRequest) (response : StabilizeResponse)
    → request.node_address ≢ unknown
    → let (after, reply) = stabilize chord request response in
      (after.node.predecessor ≢ unknown)
      × (reply.you_good ≡ same after.node.predecessor request.node_address)
      × (after ≡ with_predecessor chord after.node.predecessor)
      × ((reply.you_good ≡ true) ⊎ (reply.new_pred_address ≡ after.node.predecessor))
unfolding stabilize
stabilize_agrees chord request response known =
    elim (Bool-cases (same chord.node.predecessor unknown)) [
      | inl e ↦ rw e (known, sym (same_refl request.node_address), refl, inl refl)
      | inr e ↦ elim (Bool-cases (same chord.node.predecessor request.node_address)) [
        | inl f ↦ simp (e, f) (kept e, refl, refl, inl refl)
        | inr f ↦ simp (e, f) (kept e, refl, refl, inr refl)
      ]
    ]
  where
    kept : same chord.node.predecessor unknown ≡ false → chord.node.predecessor ≢ unknown
    kept e = λ h. cc (sym e ∙ same_of_eq chord.node.predecessor unknown h)

module _ (sha1 : String → ℕ) where
  -- On a node with a known predecessor, `notify` either refuses the sender, changes nothing and
  -- replies with the predecessor's address, or accepts the sender as predecessor, changes nothing
  -- else, and then the sender was the predecessor already or its identifier is met no later than
  -- the node's own on the way clockwise from the old predecessor.
  pub notify_closer :
      (chord : Chord) (request : NotifyRequest) (response : NotifyResponse)
      → chord.node.identifier < hash_mod
      → request.identifier < hash_mod
      → chord.node.predecessor ≢ unknown
      → let (after, reply) = notify sha1 chord request response in
        ((reply.success ≡ false)
          × (after ≡ chord)
          × (reply.new_pred_address ≡ chord.node.predecessor))
        ⊎ ((reply.success ≡ true)
            × (after ≡ with_predecessor chord request.node_address)
            × ((chord.node.predecessor ≡ request.node_address)
                ⊎ (offset (hash_string sha1 chord.node.predecessor) request.identifier
                    ≤ offset (hash_string sha1 chord.node.predecessor) chord.node.identifier)))
  unfolding notify
  notify_closer chord request response h k known =
      elim (Bool-cases (same chord.node.predecessor request.node_address)) [
        | inl e ↦
            rw (u, e)
              (inr (refl, refl, inl ((same_iff chord.node.predecessor request.node_address).0 e)))
        | inr e ↦
            elim (Bool-cases (
              between (hash_string sha1 chord.node.predecessor) request.identifier
                chord.node.identifier true)) [
                  | inl b ↦
                      rw (u, e, b)
                        (inr (
                          refl,
                          refl,
                          inr (
                              ground (
                                arith,
                                between_inclusive (hash_string sha1 chord.node.predecessor)
                                    request.identifier chord.node.identifier p k h,
                              )),
                        ))
                  | inr b ↦ rw (u, e, b) (inl (refl, refl, refl))
                ]
      ]
    where
      u : same chord.node.predecessor unknown ≡ false
      u = same_ne chord.node.predecessor unknown known

      p : hash_string sha1 chord.node.predecessor < hash_mod
      p = unfold hash_string mod_ring in omega arith

  -- A node that joins between the predecessor of `chord` and `chord` itself is not recorded: on
  -- IAMSUCC `join` sets the predecessor to the address of the node that is asked, and leaves the
  -- successors as they were.
  pub join_own_predecessor :
      (chord : Chord) (request : JoinRequest) (response r : Response)
      → IsReady chord
      → request.identifier < hash_mod
      → find sha1 chord request.identifier response ≡ ok (iamsucc, r)
      → join sha1 chord request response ≡ ok (with_predecessor chord chord.node.node_address, r)
  unfolding join admit
  join_own_predecessor chord request response r ready h e =
      let v : Returns {A = RetCode × Response} (ok (iamsucc, r))
          (λ x. Means sha1 chord request.identifier chord.node.successors x.0 x.1) =
        subst
          (λ o. Returns o (λ x. Means sha1 chord request.identifier chord.node.successors x.0 x.1))
          e (find-Means sha1 chord request.identifier ready h response) in
      rw (e, v.0.address)
