-- ===== src/Chord/HandlerSafety.antt =====
-- Each handler and each section of a call of Lab3_Chord keeps a node within its tables.
use tda596labs.Base.{
  ltb, ◌==◌, Bool-cases, length, set, length-set, ok, ◌>>=◌, store, index_ok, store_ok, Returns,
  then_returns, returned, same, ℕ, suc, ◌<◌, String, ◌∙◌, inl, inr, Bool, true, false, ◌||◌, Option,
  none, some, List, [], ◌∷◌, ◌++◌, arith,
}
use tda596labs.Chord.Ring.{hash_mod, between}
use tda596labs.Chord.Types.{
  unknown, RetCode, solonode, mysucc, iamsucc, passalong, Chord, JoinRequest, Response,
  StabilizeRequest, StabilizeResponse, FindRequest, NotifyRequest, NotifyResponse, StoreFileRequest,
  empty_response,
}
use tda596labs.Chord.Lookup.{is_passalong, hash_string, find, find_successor}
use tda596labs.Chord.LookupLaws.{IsReady, find-Means}
use tda596labs.Chord.Membership.{
  with_successors, create, verify_succs, stabilize, notify, admit, join,
}
use tda596labs.Chord.Repair.{clear_dead_succ}
use tda596labs.Chord.Calls.{after_notify, after_stabilize, call_check_pred}
use tda596labs.Chord.Files.{
  DiskWrite, written, create_failed, write_failed, FilePath, Disk, after_write, own_path, reassign,
  reassign_to_pred, reassign_duplicated_to_me, check_pred_round,
}
use tda596labs.Chord.ReassignLaws.{read_cases}
use tda596labs.Chord.NodeRuns.{stabilized, InRange, IsNode}
use tda596labs.Chord.NodeInvariant.{
  with_successors-IsNode, with_predecessor-IsNode, clear_dead_succ-IsNode, verify_succs-IsNode,
}

store_first-IsNode :
    (s : ℕ) (c : Chord) (address : String) (response : Response)
    → IsNode (suc s) c
    → Returns {A = Chord × Response}
        (store c.node.successors 0 address >>= λ succs. ok (with_successors c succs, response))
        (λ r. IsNode (suc s) r.0)
store_first-IsNode s c address response v =
    rw (store_ok c.node.successors 0 address (omega (arith, v.successors_counted))) (
      with_successors-IsNode (suc s) c (set c.node.successors 0 address) v
        (length-set c.node.successors 0 address ∙ v.successors_counted))

module _ (sha1 : String → ℕ) where
  admit-IsNode :
      (s : ℕ) (code : RetCode) (c : Chord) (request : JoinRequest) (response : Response)
      → IsNode (suc s) c
      → Returns (admit sha1 code c request response) (λ r. IsNode (suc s) r.0)
  unfolding admit
  admit-IsNode s mysucc c request response v =
      store_first-IsNode s c request.node_address response v
  admit-IsNode s solonode c request response v =
      store_first-IsNode s c request.node_address response v
  admit-IsNode s iamsucc c request response v =
      with_predecessor-IsNode (suc s) c response.node_address v
  admit-IsNode s passalong c request response v = v

  pub join-IsNode :
      (s : ℕ) (c : Chord) (request : JoinRequest)
      → IsNode (suc s) c
      → request.identifier < hash_mod
      → Returns (join sha1 c request empty_response >>= λ r. ok r.0) (IsNode (suc s))
  unfolding join
  join-IsNode s c request v h =
      let ready : IsReady c = record {
        on_ring = v.on_ring;
        fingers_counted = v.fingers_counted;
        fingers_on_ring = v.fingers_on_ring;
        has_successor = omega (arith, v.successors_counted);
      } in
      let (r, e, _) =
        returned _ (find sha1 c request.identifier empty_response)
          (find-Means sha1 c request.identifier ready h empty_response) in
      rw e (
        then_returns _ (admit sha1 r.0 c request r.1) _ (admit-IsNode s r.0 c request r.1 v)
          (λ a w. w))

  pub notify-IsNode :
      (s : ℕ) (c : Chord) (request : NotifyRequest) (response : NotifyResponse)
      → IsNode s c
      → IsNode s (notify sha1 c request response).0
  unfolding notify
  notify-IsNode s c request response v =
      elim (Bool-cases
        (same c.node.predecessor unknown || same c.node.predecessor request.node_address)) [
          | inl e ↦ simp e (with_predecessor-IsNode s c request.node_address v)
          | inr e ↦
              elim (Bool-cases (
                between (hash_string sha1 c.node.predecessor) request.identifier c.node.identifier
                  true)) [
                    | inl d ↦ simp (e, d) (with_predecessor-IsNode s c request.node_address v)
                    | inr d ↦ simp (e, d) v
                  ]
        ]

pub stabilize-IsNode :
    (s : ℕ) (c : Chord) (request : StabilizeRequest) (response : StabilizeResponse)
    → IsNode s c
    → IsNode s (stabilize c request response).0
unfolding stabilize
stabilize-IsNode s c request response v = elim (Bool-cases (same c.node.predecessor unknown)) [
  | inl e ↦ simp e (with_predecessor-IsNode s c request.node_address v)
  | inr e ↦ elim (Bool-cases (same c.node.predecessor request.node_address)) [
    | inl d ↦ simp (e, d) v
    | inr d ↦ simp (e, d) v
  ]
]

files-IsNode :
    (s : ℕ) (c : Chord) (files replicated : List String)
    → IsNode s c
    → IsNode s (record c { files = files; replicated_files = replicated })
files-IsNode s c files replicated v = record {
  on_ring = v.on_ring;
  fingers_counted = v.fingers_counted;
  fingers_on_ring = v.fingers_on_ring;
  successors_counted = v.successors_counted;
}

pub after_write-IsNode :
    (s : ℕ) (write : DiskWrite) (c : Chord) (request : StoreFileRequest)
    → IsNode s c
    → IsNode s (after_write write c request).0
unfolding after_write
after_write-IsNode s create_failed c request v = v
after_write-IsNode s write_failed c request v = v
after_write-IsNode s written c request v = elim (Bool-cases request.duplication_req) [
  | inl e ↦ rw e (files-IsNode s c c.files _ v)
  | inr e ↦ rw e (files-IsNode s c _ c.replicated_files v)
]

pub after_notify-IsNode :
    (s : ℕ) (c : Chord) (address : String) (answer : Option NotifyResponse)
    → IsNode (suc s) c
    → Returns (after_notify c address answer >>= λ r. ok r.0) (IsNode (suc s))
unfolding after_notify
after_notify-IsNode s c address none v = v
after_notify-IsNode s c address (some response) v = elim (Bool-cases response.success) [
  | inr e ↦ rw e v
  | inl e ↦
      rw (e, store_ok c.node.successors 0 address (omega (arith, v.successors_counted)))
        (record {
          on_ring = v.on_ring;
          fingers_counted = v.fingers_counted;
          fingers_on_ring = v.fingers_on_ring;
          successors_counted = length-set c.node.successors 0 address ∙ v.successors_counted;
        })
]

pub after_stabilize-IsNode :
    (s : ℕ) (c : Chord) (answer : Option StabilizeResponse)
    → IsNode (suc s) c
    → InRange (suc s) (stabilized answer)
    → Returns (after_stabilize c answer >>= λ r. ok r.0) (IsNode (suc s))
unfolding after_stabilize verify_succs
after_stabilize-IsNode s c none v h =
    let (a, e, w) = returned (IsNode (suc s)) (clear_dead_succ c) (clear_dead_succ-IsNode s c v) in
    rw e w
after_stabilize-IsNode s c (some response) v h = elim (Bool-cases response.you_good) [
  | inl g ↦
      let (a, e, w) =
        returned (IsNode (suc s)) (verify_succs c response)
          (verify_succs-IsNode (suc s) c response v h) in
      rw (g, e) w
  | inr e ↦ elim (Bool-cases (same response.new_pred_address c.node.node_address)) [
    | inl d ↦ rw (e, d) v
    | inr d ↦ rw (e, d) v
  ]
]

pub create-IsNode : (s : ℕ) (c : Chord) → IsNode (suc s) c → Returns (create c) (IsNode (suc s))
unfolding create
create-IsNode s c v =
    rw (store_ok c.node.successors 0 c.node.node_address (omega (arith, v.successors_counted))) (
      with_predecessor-IsNode (suc s) _ c.node.node_address (
        with_successors-IsNode (suc s) c (set c.node.successors 0 c.node.node_address) v
          (length-set c.node.successors 0 c.node.node_address ∙ v.successors_counted)))

pub find_successor-returns :
    (sha1 : String → ℕ) (s : ℕ) (c : Chord) (request : FindRequest)
    → IsNode (suc s) c
    → request.query_identifier < hash_mod
    → Returns (find_successor sha1 c request empty_response >>= λ r. ok c) (IsNode (suc s))
unfolding find_successor
find_successor-returns sha1 s c request v h =
    let ready : IsReady c = record {
      on_ring = v.on_ring;
      fingers_counted = v.fingers_counted;
      fingers_on_ring = v.fingers_on_ring;
      has_successor = omega (arith, v.successors_counted);
    } in
    let (r, e, _) =
      returned _ (find sha1 c request.query_identifier empty_response)
        (find-Means sha1 c request.query_identifier ready h empty_response) in
    let (succ, f, _) = index_ok c.node.successors 0 (omega (arith, v.successors_counted)) in
    elim (Bool-cases (is_passalong r.0)) [
      | inr d ↦ rw (e, d) v
      | inl d ↦ elim (Bool-cases (same r.1.node_address unknown)) [
        | inl g ↦ rw (e, d, g, f) v
        | inr g ↦ rw (e, d, g) v
      ]
    ]

module _ (sha1 : String → ℕ) (remove : Disk → FilePath → Disk)
    (meanwhile : Chord → StoreFileRequest → Chord) (s : ℕ)
    (steady : (c : Chord) (r : StoreFileRequest)
      → IsNode (suc s) c
      → IsNode (suc s) (meanwhile c r)) where
  reassign-IsNode :
      (home : ℕ) (c : Chord) (disk : Disk) (entries : List String)
      → IsNode (suc s) c
      → IsNode (suc s) (reassign sha1 remove meanwhile home c disk entries).2
  unfolding reassign
  reassign-IsNode home c disk [] v = v
  reassign-IsNode home c disk (entry ∷ entries) v =
      elim (Bool-cases (
        between (hash_string sha1 c.node.predecessor) (hash_string sha1 entry) c.node.identifier
          true)) [
            | inl e ↦ rw e (reassign-IsNode home c disk entries v)
            | inr e ↦ elim (read_cases (disk (own_path home entry))) [
              | inl r ↦ rw (e, r) (reassign-IsNode home c disk entries v)
              | inr (inl r) ↦ rw (e, r) (reassign-IsNode home c disk entries v)
              | inr (inr (bytes, r)) ↦
                  rw (e, r)
                    (reassign-IsNode home
                      (meanwhile c (record {
                        file_identifier = hash_string sha1 entry;
                        file_name = entry;
                        file_content = bytes;
                        duplication_req = false;
                      }))
                      (remove disk (own_path home entry)) entries (steady c _ v))
            ]
          ]

  pub check_pred_round-IsNode :
      (alive : Bool) (c : Chord) (disk : Disk)
      → IsNode (suc s) c
      → IsNode (suc s) (check_pred_round sha1 remove meanwhile alive c disk).0
  unfolding check_pred_round reassign_duplicated_to_me reassign_to_pred
  check_pred_round-IsNode alive c disk v = elim (Bool-cases (call_check_pred alive c)) [
    | inr e ↦ elim (Bool-cases (length c.replicated_files == 0)) [
      | inl d ↦ rw (e, d) (with_predecessor-IsNode (suc s) c unknown v)
      | inr d ↦
          rw (e, d)
            (with_predecessor-IsNode (suc s) _ unknown
              (files-IsNode (suc s) c (c.files ++ c.replicated_files) [] v))
    ]
    | inl e ↦
        let r = reassign sha1 remove meanwhile c.node.identifier c disk c.files in
        let after = reassign-IsNode c.node.identifier c disk c.files v in
        elim (Bool-cases (length c.files == 0 || same c.node.predecessor c.node.node_address)) [
          | inl d ↦ rw (e, d) v
          | inr d ↦ elim (Bool-cases (ltb (length r.0) (length r.2.files))) [
            | inl k ↦ rw (e, d, k) (files-IsNode (suc s) r.2 r.0 r.2.replicated_files after)
            | inr k ↦ rw (e, d, k) after
          ]
        ]
  ]
