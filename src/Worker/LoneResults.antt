-- ===== src/Worker/LoneResults.antt =====
-- What mrsequential.go computes is what one worker of mr/worker.go, alone with the coordinator of
-- mr/coordinator.go, leaves in the output files.
use tda596labs.Coordinator.Types.{Bytes, FileRead, content}
use tda596labs.Coordinator.Handlers.{make_coordinator, do_setup}
use tda596labs.Base.{
  ◌==◌, if◌then◌else◌, length, All, ok, index, ℕ, suc, ◌+◌, ◌%◌, ◌<◌, String, ◌≡◌, refl, sym, ap,
  ◌∙◌, Bool, true, false, some, List, [], ◌∷◌, arith,
}
use tda596labs.Base.IntMap.{IntMap, lookup, insert}
use tda596labs.Worker.Tasks.{ihash, reduce_lines, do_reduce}
use tda596labs.Worker.Buckets.{of_bucket}
use tda596labs.Worker.Groups.{values_of, outputs_of, one_call, group_lem, do_reduce_lem}
use tda596labs.Worker.Sequential.{sequential}
use tda596labs.Worker.Agreement.{
  emitted, map_all_lem, sequential_group_lem, values_of-of_bucket, one_call-Perm,
}
use tda596labs.Worker.Process.{
  Buckets, Lines, Libs, State, split_colons, join_and_work, worker_main, worker_main-addressed,
}
use tda596labs.Worker.System.{System, rpcs_of}
use tda596labs.Worker.Shuffle.{append_files-Perm, values_of-Perm, Holds, append_files-Holds}
use tda596labs.Worker.LoneTurns.{collected}
use tda596labs.Worker.LoneRun.{IsLawful, map_phase, reduce_phase}
use mathlib.Core.List.{Perm}
use mathlib.Core.List.Perm.{refl as perm_refl, trans as perm_trans}

pub one_call_if :
    (reducef : String → List String → String) (k : String) (vs : List String) (here : Bool)
    → one_call reducef k (if here then vs else []) ≡ (if here then one_call reducef k vs else [])
one_call_if reducef k vs true = refl
one_call_if reducef k vs false = refl

-- What `mrsequential` has for a key.
pub sequential_lem :
    (libs : Libs) (contents : String → String) (files : List String) (k : String)
    → IsLawful libs
    → (all : Lines) × (sequential libs.sort libs.reducef libs.mapf
          (λ name. some (contents name))
          files
        ≡ ok (some all))
      × (outputs_of k all
          ≡ one_call libs.reducef k (values_of k (emitted libs.mapf contents files)))
unfolding sequential
sequential_lem libs contents files k laws =
    let pairs = emitted libs.mapf contents files in
    let (groups, e, f) =
      group_lem libs.reducef (length (libs.sort pairs)) (libs.sort pairs) k (omega arith)
        (laws.sort_groups pairs) in
    (
      reduce_lines libs.reducef groups,
      rw (
        map_all_lem libs.mapf contents files,
        sequential_group_lem (length (libs.sort pairs)) (libs.sort pairs),
        e,
      ),
      f
          ∙ one_call-Perm libs.reducef k (values_of k (libs.sort pairs)) (values_of k pairs)
              (values_of-Perm k (libs.sort pairs) pairs (laws.sort_keeps pairs))
              laws.reduce_unordered,
    )

-- What reduce job `b` has for a key, if the map jobs left their files.
pub bucket_lem :
    (libs : Libs) (contents : String → String) (files : List String) (m b : ℕ) (k : String)
    (intermediate : IntMap Buckets) (mine : Lines)
    → IsLawful libs
    → b < m
    → Holds libs.sum32 m libs.mapf contents files intermediate
    → do_reduce libs.sort libs.reducef (collected libs (length files) intermediate b) ≡ some mine
    → outputs_of k mine ≡ (
        if ihash libs.sum32 k % m == b
        then one_call libs.reducef k (values_of k (emitted libs.mapf contents files))
        else [])
bucket_lem libs contents files m b k intermediate mine laws h d e =
    let pairs = collected libs (length files) intermediate b in
    let found = of_bucket libs.sum32 m b (emitted libs.mapf contents files) in
    let (lines, vs, f, p, g) =
      do_reduce_lem libs.sort libs.reducef pairs k (laws.sort_groups pairs)
        (values_of-Perm k (libs.sort pairs) pairs (laws.sort_keeps pairs)) in
    let same_lines : mine ≡ lines = ground (arith, e, f) in
    let q : Perm vs (values_of k found) =
      perm_trans p (values_of-Perm k pairs found (collected-Perm files d)) in
    ap (outputs_of k) same_lines
    ∙ g
    ∙ one_call-Perm libs.reducef k vs (values_of k found) q laws.reduce_unordered
    ∙ ap (one_call libs.reducef k)
        (values_of-of_bucket libs.sum32 m b k (emitted libs.mapf contents files))
    ∙ one_call_if libs.reducef k (values_of k (emitted libs.mapf contents files))
        (ihash libs.sum32 k % m == b)
  where
    collected-Perm :
        (names : List String)
        → Holds libs.sum32 m libs.mapf contents names intermediate
        → Perm
            (collected libs (length names) intermediate b)
            (of_bucket libs.sum32 m b (emitted libs.mapf contents names))
    collected-Perm [] d = perm_refl _
    collected-Perm (name ∷ names) d =
        rw (← append_files-Holds libs.sum32 m libs.mapf contents b (name ∷ names) intermediate h d)
          (append_files-Perm b (libs.glob intermediate) intermediate (laws.glob_keeps intermediate))

-- Let the libraries be lawful, the worker's address have a colon, every input file be readable, at
-- least one reduce job be asked for, and `serverHandler` run a fixed number of rounds, at least one,
-- right before each `GetWork`. Then one worker that joins a fresh coordinator returns from its loop
-- within a turn for each input file, one for each reduce job and one more; the coordinator is then
-- done, and the output file of every reduce job `b` holds lines in which the outputs for every key
-- `k` are those of the sequential program if `k` hashes to `b`, and none if not.
pub lone_worker_finishes :
    (libs : Libs) (fs : String → FileRead) (bytes : String → Bytes) (ip address port : String)
    (files : List String) (m pause b : ℕ) (k : String)
    → IsLawful libs
    → index (split_colons address) 1 ≡ ok port
    → All (λ name. fs name ≡ content (bytes name)) files
    → b < m
    → (s : State System) × (mine all : Lines) × (worker_main libs
          (rpcs_of fs (suc pause))
          (length files + (m + 1))
          (record { coordinator = make_coordinator ip files m; output = [] })
          address
        ≡ ok (some s))
      × (s.world.coordinator.is_done ≡ true)
      × (lookup b s.world.output ≡ some (libs.show_lines mine))
      × (sequential libs.sort libs.reducef libs.mapf
            (λ name. some (libs.to_text (bytes name)))
            files
          ≡ ok (some all))
      × (outputs_of k mine ≡ (if ihash libs.sum32 k % m == b then outputs_of k all else []))
unfolding join_and_work rpcs_of do_setup make_coordinator insert
lone_worker_finishes libs fs bytes ip address port files m pause b k laws addressed readable h =
    let (after, held, mapped) =
      map_phase libs fs bytes ip address port m pause files (omega arith) 0 files [] [] (m + 1) refl
        refl readable tt tt in
    let (output, outputs, w, reduced) =
      reduce_phase libs fs bytes ip address port m pause files (omega arith) (length files) 0 m []
        after [] laws (omega arith) (λ b h. absurd (omega arith)) in
    let (mine, e, found) = w b h in
    let (all, f, g) = sequential_lem libs (λ name. libs.to_text (bytes name)) files k laws in
    (
      _,
      mine,
      all,
      worker_main-addressed libs (rpcs_of fs (suc pause)) (length files + (m + 1)) _ address port
            addressed
          ∙ mapped
          ∙ reduced,
      refl,
      found,
      f,
      bucket_lem libs (λ name. libs.to_text (bytes name)) files m b k after mine laws h held e
          ∙ ap (λ out. if ihash libs.sum32 k % m == b then out else []) (sym g),
    )
