-- ===== src/Chord/NodeRuns.antt =====
-- A node as a machine: the handlers of Lab3_Chord/chord.go and the sections of its client calls in
-- chordRPC.go that hold the node's lock, in any order.
use tda596labs.Base.{
  length, All, Outcome, ok, panic, ◌>>=◌, Returns, ℕ, suc, ◌+◌, ◌≤◌, ◌<◌, String, ◌≡◌, refl, ap,
  Bool, false, Option, some, List, [], ◌∷◌, arith,
}
use tda596labs.Chord.Ring.{key_size, hash_mod, jump_identifier}
use tda596labs.Chord.Types.{
  unknown, FingerEntry, Chord, JoinRequest, StabilizeRequest, StabilizeResponse, FindRequest,
  NotifyRequest, NotifyResponse, StoreFileRequest, RetreiveFileRequest, empty_response,
}
use tda596labs.Chord.Lookup.{find_successor}
use tda596labs.Chord.Membership.{
  own_address, own_fingers, init_client, create, stabilize, notify, join,
}
use tda596labs.Chord.Repair.{find_new_succ, set_finger, advance_finger}
use tda596labs.Chord.Calls.{after_notify, after_stabilize}
use tda596labs.Chord.Files.{DiskWrite, FilePath, Disk, store_file, check_pred_round}

pub data Event : Type 0 where
  joins : JoinRequest → Event
  notifies : NotifyRequest → Event
  stabilizes : StabilizeRequest → Event
  stores : DiskWrite → StoreFileRequest → Event
  finds : FindRequest → Event
  creates : Event
  looks_up : RetreiveFileRequest → Event
  -- The section behind the RPC of `CallNotify` and of `CallStabilize`, with the answer, if any.
  notified : String → Option NotifyResponse → Event
  stabilized : Option StabilizeResponse → Event
  -- The section of `CallStabilize` before its RPC, if the first successor is unknown.
  repairs : Event
  -- The two kinds of sections of `FixFingers`.
  advances : Event
  points : ℕ → String → Event
  -- The round of the predecessor check, with the disk that it finds.
  checks : Bool → Disk → Event

module _ (sha1 : String → ℕ) (remove : Disk → FilePath → Disk)
    (meanwhile : Chord → StoreFileRequest → Chord) where
  unfoldable pub step : Chord → Event → Outcome Chord
  step c (joins request) = join sha1 c request empty_response >>= λ r. ok r.0
  step c (notifies request) =
      ok (notify sha1 c request (record { success = false; new_pred_address = "" })).0
  step c (stabilizes request) =
      ok
        (stabilize c request
          (record { you_good = false; new_pred_address = ""; node_successors = [] })).0
  step c (stores write request) = ok (store_file (λ path content. write) c request).0
  step c (finds request) = find_successor sha1 c request empty_response >>= λ r. ok c
  step c creates = create c
  step c (looks_up request) = ok c
  step c (notified address answer) = after_notify c address answer >>= λ r. ok r.0
  step c (stabilized answer) = after_stabilize c answer >>= λ r. ok r.0
  step c repairs = find_new_succ c
  step c advances = advance_finger sha1 c >>= λ r. ok r.0
  step c (points i address) = set_finger c i address
  step c (checks alive disk) = ok (check_pred_round sha1 remove meanwhile alive c disk).0

  unfoldable pub run : Chord → List Event → Outcome Chord
  run c [] = ok c
  run c (e ∷ es) = step c e >>= λ c'. run c' es

-- Identifiers lie on the ring, fingers exist, and a successor that agrees sends a list as long as
-- the node's own.
abbrev pub InRange : ℕ → Event → Type 0
InRange s (joins request) = request.identifier < hash_mod
InRange s (finds request) = request.query_identifier < hash_mod
InRange s (points i address) = i ≤ key_size
InRange s (stabilized (some response)) = s ≤ length response.node_successors
InRange s _ = Unit

-- The node is set up, with `s` successors.
pub record IsNode (s : ℕ) (c : Chord) : Type 0 where
  pub on_ring : c.node.identifier < hash_mod
  pub fingers_counted : length c.node.finger_table ≡ key_size + 1
  pub fingers_on_ring : All (λ f. f.identifier < hash_mod) c.node.finger_table
  pub successors_counted : length c.node.successors ≡ s

own_address_lem : (address : String) (l : List String) → length (own_address address l) ≡ length l
unfolding own_address
own_address_lem address [] = refl
own_address_lem address (x ∷ l) = ap suc (own_address_lem address l)

own_fingers_lem :
    (n id : ℕ) (address : String) (l : List FingerEntry)
    → (length (own_fingers n id address l) ≡ length l)
      × All (λ f. f.identifier < hash_mod) (own_fingers n id address l)
unfolding own_fingers jump_identifier
own_fingers_lem n id address [] = (refl, tt)
own_fingers_lem n id address (x ∷ l) =
    let rest = own_fingers_lem (n + 1) id address l in (ap suc rest.0, (omega arith, rest.1))

pub init_client-IsNode :
    (c : Chord)
    → c.node.identifier < hash_mod
    → length c.node.finger_table ≡ key_size + 1
    → Returns (init_client c) (IsNode (length c.node.successors))
unfolding init_client
init_client-IsNode c h l = go c.node.finger_table l
  where
    go :
        (t : List FingerEntry)
        → length t ≡ key_size + 1
        → Returns
            (elim t [
              | [] ↦ panic
              | first ∷ fingers ↦ ok (record c {
                node = record (c.node) {
                  successors = own_address c.node.node_address c.node.successors;
                  finger_table =
                      record { identifier = c.node.identifier; node_address = c.node.node_address }
                      ∷ own_fingers 1 c.node.identifier c.node.node_address fingers;
                  predecessor = unknown;
                };
              })
            ])
            (IsNode (length c.node.successors))
    go [] l = absurd (omega arith)
    go (first ∷ fingers) l =
        let f = own_fingers_lem 1 c.node.identifier c.node.node_address fingers in
        record {
          on_ring = h;
          fingers_counted = omega (arith, f.0, l);
          fingers_on_ring = (h, f.1);
          successors_counted = own_address_lem c.node.node_address c.node.successors;
        }
