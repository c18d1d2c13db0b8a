-- ===== src/Chord/Calls.antt =====
-- The client side of the RPCs: Lab3_Chord/chordRPC.go. A call that releases the lock around its
-- RPC takes the rest of the ring as a parameter: the state that the node is in when the lock is
-- held again, and the answer, if one comes. A spawned `go chord.CallNotify(a)` is returned as `a`.
use tda596labs.Base.{
  if◌then◌else◌, Outcome, ok, fatal, ◌>>=◌, index, store, same, ℕ, zero, suc, String, Bool, true,
  false, not, Option, none, some,
}
use tda596labs.Chord.Types.{
  unknown, Chord, Response, StabilizeRequest, StabilizeResponse, FindRequest, NotifyRequest,
  NotifyResponse, empty_response,
}
use tda596labs.Chord.Lookup.{is_passalong, find}
use tda596labs.Chord.Membership.{verify_succs}
use tda596labs.Chord.Repair.{find_new_succ, clear_dead_succ}

-- `CallNotify(node_address)`, behind its RPC.
unfoldable pub after_notify :
    Chord → String → Option NotifyResponse → Outcome (Chord × Option String)
after_notify chord node_address none = ok (chord, none)
after_notify chord node_address (some response) =
    if response.success
    then (store chord.node.successors 0 node_address >>= λ succs. ok (
      record chord { node = record (chord.node) { join_pending = false; successors = succs } },
      none,
    ))
    else ok (chord, some response.new_pred_address)

unfoldable pub call_notify :
    (Chord → NotifyRequest → Chord × Option NotifyResponse)
    → Chord
    → String
    → Outcome (Chord × Option String)
call_notify ring chord node_address =
    let r =
      ring chord
        (record { node_address = chord.node.node_address; identifier = chord.node.identifier }) in
    after_notify r.0 node_address r.1

-- Whom a node that joins turns to next: its successor, to notify it, or another node, to join.
pub data JoinStep : Type 0 where
  notify_next : String → JoinStep
  join_next : String → JoinStep

-- `CallJoin`, behind its RPC: the process exits if the node cannot be reached.
unfoldable pub after_join : Option Response → Outcome JoinStep
after_join none = fatal
after_join (some response) =
    if response.is_successor
    then ok (notify_next response.node_address)
    else ok (join_next response.node_address)

-- `CallStabilize`, behind its RPC.
unfoldable pub after_stabilize : Chord → Option StabilizeResponse → Outcome (Chord × Option String)
after_stabilize chord none = clear_dead_succ chord >>= λ c. ok (c, none)
after_stabilize chord (some response) =
    if not response.you_good
    then (if not (same response.new_pred_address chord.node.node_address)
        then ok (chord, some response.new_pred_address)
        else ok (chord, none))
    else (verify_succs chord response >>= λ c. ok (c, none))

unfoldable pub call_stabilize :
    (Chord → String → StabilizeRequest → Chord × Option StabilizeResponse)
    → Chord
    → Outcome (Chord × Option String)
call_stabilize ring chord = do
  succ ← index chord.node.successors 0
  let request : StabilizeRequest = record {
    node_address = chord.node.node_address;
    identifier = chord.node.identifier;
  }
  if same succ unknown
      then (find_new_succ chord >>= λ c. let r = ring c succ request in after_stabilize r.0 r.1)
      else if same succ chord.node.node_address
      then ok (chord, none)
      else (let r = ring chord succ request in after_stabilize r.0 r.1)

-- `CallCheckPred`; `alive` says whether the predecessor answers.
unfoldable pub call_check_pred : Bool → Chord → Bool
call_check_pred alive chord =
    if same chord.node.predecessor unknown
    then false
    else if same chord.node.predecessor chord.node.node_address
    then true
    else alive

-- The loop of `resolveIdentifier`, with `rounds` of its 32 left; it runs without the lock, and
-- `ask` is what the ring answers to each query.
unfoldable pub resolve_rounds :
    (ℕ → FindRequest → Option Response) → ℕ → Chord → FindRequest → String
resolve_rounds ask zero chord request = unknown
resolve_rounds ask (suc rounds) chord request =
    elim (same request.query_node_address chord.node.node_address) [
      | true ↦ chord.node.node_address
      | false ↦ elim (ask rounds request) [
        | none ↦ unknown
        | some response ↦ elim (response.is_successor) [
          | true ↦ response.node_address
          | false ↦
              resolve_rounds ask rounds chord
                (record request { query_node_address = response.node_address })
        ]
      ]
    ]

module _ (sha1 : String → ℕ) where
  unfoldable pub resolve_identifier :
      (ℕ → FindRequest → Option Response) → Chord → ℕ → Outcome String
  resolve_identifier ask chord identifier = find sha1 chord identifier empty_response >>= λ r.
      if not (is_passalong r.0)
      then ok (r.1.node_address)
      else if same r.1.node_address chord.node.node_address
      then ok chord.node.node_address
      else ok (
          resolve_rounds ask 32 chord
            (record { query_identifier = identifier; query_node_address = r.1.node_address }))
