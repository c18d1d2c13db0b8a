-- ===== src/Examples/Rings.antt =====
-- Repairs, calls and files of the nodes of Lab3_Chord at concrete states.
use tda596labs.Base.{
  if◌then◌else◌, length, replicate, ok, Returns, same, ne_of_same, ℕ, suc, ◌+◌, String, ◌≡◌, refl,
  ◌⊎◌, inl, inr, true, false, Option, none, some, List, [], ◌∷◌, ◌++◌, arith,
}
use tda596labs.Examples.Nodes.{digest, node_a, node_a-IsReady, request_b}
use tda596labs.Chord.NodeRuns.{
  Event, joins, notifies, stabilizes, finds, creates, stabilized, repairs, advances, points, checks,
}
use tda596labs.Chord.FingerLaws.{Advanced, fix_fingers-Advanced}
use tda596labs.Chord.Repair.{clear_dead_succ, Network, fix_fingers}
use tda596labs.Chord.Ring.{key_size, mod_ring, between}
use tda596labs.Chord.Types.{
  unknown, Bytes, iamsucc, Chord, Response, StabilizeRequest, FindRequest, StoreFileRequest,
  empty_response,
}
use tda596labs.Chord.Lookup.{hash_string, find_from, find}
use tda596labs.Chord.LookupLaws.{IsNearest}
use tda596labs.Chord.Membership.{with_predecessor, join}
use tda596labs.Chord.MembershipLaws.{join_own_predecessor}
use tda596labs.Chord.RepairLaws.{without, count, clear_dead_succ_lem}
use tda596labs.Chord.Calls.{call_stabilize, resolve_identifier}
use tda596labs.Chord.CallLaws.{Stabilized, call_stabilize_lem, resolve_identifier-Resolved}
use tda596labs.Chord.Files.{
  DiskWrite, written, write_failed, no_such_file, contents, FilePath, Disk, store_file,
}
use tda596labs.Chord.FileLaws.{Stored, store_file_lem}

find_own :
    find digest node_a 60 empty_response
    ≡ ok (iamsucc, record { is_successor = true; node_address = "a"; identifier = 100 })
unfolding find find_from hash_string between mod_ring
find_own = refl

join_own_predecessor_example :
    join digest node_a (record { node_address = "d"; identifier = 60 }) empty_response
    ≡ ok (
      with_predecessor node_a node_a.node.node_address,
      record { is_successor = true; node_address = "a"; identifier = 100 },
    )
join_own_predecessor_example =
    join_own_predecessor digest node_a (record { node_address = "d"; identifier = 60 })
      empty_response (record { is_successor = true; node_address = "a"; identifier = 100 })
      node_a-IsReady (omega arith) find_own

abbrev from_b : StabilizeRequest
from_b = record { node_address = "b"; identifier = 200 }

clear_dead_succ_lem_example : Returns (clear_dead_succ node_a) (λ after.
    (after.node.successors
      ≡ without "b" ("c" ∷ []) ++ replicate (suc (count "b" ("c" ∷ []))) unknown)
    × (length after.node.successors ≡ length node_a.node.successors)
    × (length after.node.finger_table ≡ key_size + 1))
clear_dead_succ_lem_example = clear_dead_succ_lem node_a "b" ("c" ∷ []) refl refl

call_stabilize_lem_example :
    Returns
      (call_stabilize (λ c _ _. (c, none)) node_a)
      (λ r. Stabilized node_a "b" ("c" ∷ []) r none)
call_stabilize_lem_example =
    call_stabilize_lem node_a "b" ("c" ∷ []) none refl refl (ne_of_same "b" unknown refl)
      (ne_of_same "b" "a" refl) tt

-- A ring in which every query is answered by node "c" for itself.
abbrev answers_c : ℕ → FindRequest → Option Response
answers_c round request =
    some (record { is_successor = true; node_address = "c"; identifier = 300 })

abbrev OnRing : String → Type 0
OnRing a = (a ≡ "b") ⊎ (a ≡ "c")

vouched :
    (round : ℕ) (q : FindRequest) (r : Response)
    → answers_c round q ≡ some r
    → r.is_successor ≡ true
    → OnRing r.node_address
vouched round q r e f = inr (cc)

nearest :
    (r : Response) → IsNearest digest node_a 250 node_a.node.successors r → OnRing r.node_address
nearest r v = listed v.before v.after v.listed
  where
    listed :
        (before after : List String)
        → node_a.node.successors ≡ before ++ r.node_address ∷ after
        → OnRing r.node_address
    listed [] after e = inl cc
    listed (x ∷ []) after e = inr cc
    listed (x ∷ y ∷ []) after e = cc
    listed (x ∷ y ∷ z ∷ zs) after e = cc

resolve_identifier-Resolved_example :
    Returns
      (resolve_identifier digest answers_c node_a 250)
      (λ a. (a ≡ unknown) ⊎ (a ≡ node_a.node.node_address) ⊎ OnRing a)
resolve_identifier-Resolved_example =
    resolve_identifier-Resolved digest OnRing answers_c node_a 250 node_a-IsReady (omega arith)
      vouched nearest

abbrev disk_read : Disk
disk_read path = contents (1 ∷ 2 ∷ [])

abbrev stores_h : StoreFileRequest
stores_h = record {
  file_identifier = 70;
  file_name = "h";
  file_content = 9 ∷ [];
  duplication_req = false;
}

abbrev takes_all : FilePath → Bytes → DiskWrite
takes_all path content = written

abbrev takes_none : FilePath → Bytes → DiskWrite
takes_none path content = write_failed

store_file_lem_example :
    Stored written node_a stores_h (store_file takes_all node_a stores_h)
    × ((store_file takes_none node_a (record stores_h { duplication_req = true })).2 ≡ none)
store_file_lem_example = store_file_lem takes_all takes_none node_a node_a stores_h

-- A file is removed by its name.
abbrev removes : Disk → FilePath → Disk
removes disk path asked = if same asked.file_name path.file_name then no_such_file else disk asked

abbrev undisturbed : Chord → StoreFileRequest → Chord
undisturbed chord request = chord

-- A ring that answers no query.
abbrev silent_ring : Network
silent_ring round c request = (c, none)

fix_fingers-Advanced_example : Returns (fix_fingers digest silent_ring node_a) (Advanced node_a)
fix_fingers-Advanced_example =
    fix_fingers-Advanced digest silent_ring node_a
      (λ round c request. record { counted = refl; last = refl; cursor = refl }) (omega arith) refl

abbrev talk : List Event
talk =
    notifies request_b
    ∷ stabilizes from_b
    ∷ stabilized none
    ∷ repairs
    ∷ advances
    ∷ points 7 "b"
    ∷ checks true disk_read
    ∷ finds (record { query_identifier = 60; query_node_address = "d" })
    ∷ creates
    ∷ joins (record { node_address = "d"; identifier = 60 })
    ∷ []
