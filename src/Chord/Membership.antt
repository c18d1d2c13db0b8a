-- ===== src/Chord/Membership.antt =====
-- How nodes enter the ring and keep their neighbours: `Create`, `initClient`, `Join`, `Notify`,
-- `Stabilize` and `verifySuccs` of Lab3_Chord/chord.go, all under the node's lock.
use tda596labs.Base.{
  if◌then◌else◌, Outcome, ok, panic, ◌>>=◌, store, same, ℕ, ◌+◌, String, true, false, ◌||◌, List,
  [], ◌∷◌,
}
use tda596labs.Chord.Ring.{jump_identifier, between}
use tda596labs.Chord.Types.{
  unknown, RetCode, solonode, mysucc, iamsucc, passalong, FingerEntry, Chord, JoinRequest, Response,
  StabilizeRequest, StabilizeResponse, NotifyRequest, NotifyResponse,
}
use tda596labs.Chord.Lookup.{hash_string, find}

-- The loop of `initClient` over the successors, and over fingers `n`, `n + 1`, ….
unfoldable pub own_address : String → List String → List String
own_address address [] = []
own_address address (_ ∷ rest) = address ∷ own_address address rest

unfoldable pub own_fingers : ℕ → ℕ → String → List FingerEntry → List FingerEntry
own_fingers n id address [] = []
own_fingers n id address (_ ∷ rest) =
    record { identifier = jump_identifier id n; node_address = address }
    ∷ own_fingers (n + 1) id address rest

-- `initClient`: every neighbour is the node itself, and no predecessor is known.
unfoldable pub init_client : Chord → Outcome Chord
init_client chord = elim chord.node.finger_table [
  | [] ↦ panic
  | first ∷ fingers ↦ ok (record chord {
    node = record (chord.node) {
      successors = own_address chord.node.node_address chord.node.successors;
      finger_table =
          record { identifier = chord.node.identifier; node_address = chord.node.node_address }
          ∷ own_fingers 1 chord.node.identifier chord.node.node_address fingers;
      predecessor = unknown;
    };
  })
]

abbrev pub with_successors : Chord → List String → Chord
with_successors chord succs = record chord { node = record (chord.node) { successors = succs } }

abbrev pub with_predecessor : Chord → String → Chord
with_predecessor chord pred = record chord { node = record (chord.node) { predecessor = pred } }

unfoldable pub create : Chord → Outcome Chord
create chord = store chord.node.successors 0 chord.node.node_address >>= λ succs.
    ok (with_predecessor (with_successors chord succs) chord.node.node_address)

-- The loop of `verifySuccs` over our successors from the second on, beside the response's list.
unfoldable pub copy_succs : List String → List String → Outcome (List String)
copy_succs [] theirs = ok []
copy_succs (ours ∷ rest) [] = panic
copy_succs (ours ∷ rest) (succs_successor ∷ theirs) =
    let more = copy_succs rest theirs in
    let filled = if same ours unknown then succs_successor else ours in
    let agreed = if same succs_successor filled then filled else succs_successor in
    if same succs_successor unknown
    then ok (ours ∷ rest)
    else (more >>= λ succs. ok (agreed ∷ succs))

unfoldable pub verify_succs : Chord → StabilizeResponse → Outcome Chord
verify_succs chord response = elim chord.node.successors [
  | [] ↦ ok chord
  | first ∷ rest ↦ copy_succs rest response.node_successors >>= λ succs.
      ok (with_successors chord (first ∷ succs))
]

-- The handler `Stabilize`: the predecessor asks whether we still know it.
unfoldable pub stabilize : Chord → StabilizeRequest → StabilizeResponse → Chord × StabilizeResponse
stabilize chord request response =
    if same chord.node.predecessor unknown
    then (
      with_predecessor chord request.node_address,
      record response { you_good = true; node_successors = chord.node.successors },
    )
    else if same chord.node.predecessor request.node_address
    then (chord, record response { you_good = true; node_successors = chord.node.successors })
    else (chord, record response { you_good = false; new_pred_address = chord.node.predecessor })

module _ (sha1 : String → ℕ) where
  -- The handler `Notify`: a node believes that it is our predecessor.
  unfoldable pub notify : Chord → NotifyRequest → NotifyResponse → Chord × NotifyResponse
  notify chord request response =
      let pred = hash_string sha1 chord.node.predecessor in
      if same chord.node.predecessor unknown || same chord.node.predecessor request.node_address
      then (with_predecessor chord request.node_address, record response { success = true })
      else if between pred request.identifier chord.node.identifier true
      then (with_predecessor chord request.node_address, record response { success = true })
      else (chord, record response { success = false; new_pred_address = chord.node.predecessor })

  -- What `Join` writes after `find` has answered.
  unfoldable pub admit : RetCode → Chord → JoinRequest → Response → Outcome (Chord × Response)
  admit mysucc chord request response =
      store chord.node.successors 0 request.node_address >>= λ succs.
      ok (with_successors chord succs, response)
  admit solonode chord request response =
      store chord.node.successors 0 request.node_address >>= λ succs.
      ok (with_successors chord succs, response)
  admit iamsucc chord request response = ok (with_predecessor chord response.node_address, response)
  admit passalong chord request response = ok (chord, record response { is_successor = false })

  unfoldable pub join : Chord → JoinRequest → Response → Outcome (Chord × Response)
  join chord request response =
      find sha1 chord request.identifier response >>= λ r. admit r.0 chord request r.1
