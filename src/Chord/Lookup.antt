-- ===== src/Chord/Lookup.antt =====
-- Finding the node that is responsible for an identifier: `find`, `closestPreceedingNode` and
-- `FindSuccessor` of Lab3_Chord/chord.go, and `hashString` of chordUtil.go.
use tda596labs.Base.{
  if◌then◌else◌, Outcome, ok, ◌>>=◌, index, same, ℕ, zero, suc, String, Bool, true, false, List, [],
  ◌∷◌,
}
use tda596labs.Chord.Ring.{key_size, mod_ring, between}
use tda596labs.Chord.Types.{
  unknown, RetCode, solonode, mysucc, iamsucc, passalong, Chord, Response, FindRequest,
}

abbrev pub is_passalong : RetCode → Bool
is_passalong passalong = true
is_passalong _ = false

-- SHA-1 is the library's: `sha1` gives the digest of a text as a number.
module _ (sha1 : String → ℕ) where
  unfoldable pub hash_string : String → ℕ
  hash_string elt = mod_ring (sha1 elt)

  -- The loop `for n := keySize; n >= 1; n--`.
  unfoldable pub closest_from : ℕ → Chord → ℕ → Response → Outcome (RetCode × Response)
  closest_from zero chord identifier response = index chord.node.successors 0 >>= λ succ.
      ok (passalong, record response { node_address = succ })
  closest_from (suc n) chord identifier response =
      let rest = closest_from n chord identifier response in
      index chord.node.finger_table (suc n) >>= λ finger.
      if between chord.node.identifier identifier finger.identifier true
      then ok (
        passalong,
        record response { identifier = finger.identifier; node_address = finger.node_address },
      )
      else rest

  unfoldable pub closest_preceeding_node : Chord → ℕ → Response → Outcome (RetCode × Response)
  closest_preceeding_node chord identifier response =
      closest_from key_size chord identifier response

  -- The loop of `find` over the successors that are left.
  unfoldable pub find_from : List String → Chord → ℕ → Response → Outcome (RetCode × Response)
  find_from [] chord identifier response = closest_preceeding_node chord identifier response
  find_from (succ ∷ succs) chord identifier response =
      let rest = find_from succs chord identifier response in
      let curr_succ = hash_string succ in
      let pred = hash_string chord.node.predecessor in
      let own : Response = record {
        is_successor = true;
        node_address = chord.node.node_address;
        identifier = chord.node.identifier;
      } in
      if same succ unknown
      then ok (solonode, own)
      else if between chord.node.identifier identifier curr_succ true
      then ok (mysucc, record { is_successor = true; node_address = succ; identifier = curr_succ })
      else if between pred identifier chord.node.identifier true
      then ok (iamsucc, own)
      else rest

  unfoldable pub find : Chord → ℕ → Response → Outcome (RetCode × Response)
  find chord identifier response = find_from chord.node.successors chord identifier response

  unfoldable pub find_successor : Chord → FindRequest → Response → Outcome Response
  find_successor chord request response = find chord request.query_identifier response >>= λ r.
      if is_passalong r.0
      then (if same r.1.node_address unknown
          then (index chord.node.successors 0 >>= λ succ.
              ok (record (r.1) { is_successor = false; node_address = succ }))
          else ok (record (r.1) { is_successor = false }))
      else ok r.1
