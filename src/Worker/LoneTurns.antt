-- ===== src/Worker/LoneTurns.antt =====
-- The turns of the loop of `Worker` in mr/worker.go for one worker alone with the coordinator.
use tda596labs.Coordinator.Types.{Bytes, Coordinator, WorkReply, FileRead, content}
use tda596labs.Coordinator.Handlers.{empty_reply, locations, get_work}
use tda596labs.Base.{
  length, replicate, ok, ◌>>=◌, index, ℕ, zero, suc, ◌<◌, String, ◌≡◌, refl, ap, ◌∙◌, Bool, true,
  false, some, List, [], ◌∷◌, ◌++◌,
}
use tda596labs.Base.IntMap.{IntMap, lookup, insert}
use tda596labs.Worker.Tasks.{KeyValue, do_map, do_reduce, source_of}
use tda596labs.Worker.Process.{
  Buckets, Lines, Libs, Rpcs, State, append_files, retreive_files, collect, turn,
}
use tda596labs.Worker.System.{System, got_work, did_work, rpcs_of}
use tda596labs.Worker.Tables.{store-filled, replicate-fill}
use tda596labs.Worker.Lone.{
  owners, none_left, lone, ticks-lone, map_reply, reduce_reply, map_job-lone, reduce_job-lone,
  nowork-lone,
}
use tda596labs.Worker.Turns.{map_turn_lem, reduce_turn_lem, last_turn_lem}
use mathlib.Core.List.{append-nil}

-- The pairs that reduce job `r` collects: nothing if no map job had an owner.
abbrev pub collected : Libs → ℕ → IntMap Buckets → ℕ → List KeyValue
collected libs zero intermediate r = []
collected libs (suc i) intermediate r = append_files r (libs.glob intermediate)

module _ (libs : Libs) (fs : String → FileRead) (ip address port : String) (files : List String)
    (m pause : ℕ) where
  -- Worker 1 has finished `i` map jobs and `r` reduce jobs; `k` and `l` jobs are left.
  abbrev pub at : ℕ → ℕ → ℕ → ℕ → Bool → IntMap Bytes → IntMap Buckets → IntMap Lines → State System
  at i k r l over output intermediate outputs = record {
    world = record { coordinator = lone fs ip address files m i k r l over; output = output };
    worker = record {
      is_setup = true;
      ip_address = address;
      port = port;
      worker_id = 1;
      completed_map_tasks = replicate i true ++ replicate k false;
      completed_reduce_tasks = replicate r true ++ replicate l false;
    };
    disk = record { intermediate = intermediate; outputs = outputs };
  }

  abbrev pub lone_rpcs : Rpcs System
  lone_rpcs = rpcs_of fs (suc pause)

  -- What the coordinator answers when it ticks before the request.
  asked :
      (i k r l : ℕ) (output : IntMap Bytes) (c : Coordinator) (reply : WorkReply)
      → get_work fs (lone fs ip address files m i k r l (none_left k l)) 1 empty_reply
        ≡ ok (c, reply)
      → lone_rpcs.get_work
          (record { coordinator = lone fs ip address files m i k r l false; output = output })
          1
        ≡ (record { coordinator = c; output = output }, some reply)
  unfolding rpcs_of
  asked i k r l output c reply e =
      let s : System = record {
        coordinator = lone fs ip address files m i k r l false;
        output = output;
      } in
      ap (λ o. got_work s (o >>= λ d. get_work fs d 1 empty_reply))
        (ticks-lone fs ip address files m pause i k r l false)
      ∙ ap (got_work s) e

  pub map_turn :
      (i k : ℕ) (name : String) (bytes : Bytes) (output : IntMap Bytes)
      (intermediate : IntMap Buckets) (outputs : IntMap Lines) (buckets : Buckets)
      → index files i ≡ ok name
      → fs name ≡ content bytes
      → i < length files
      → do_map libs.sum32 m (libs.mapf name (libs.to_text bytes)) ≡ ok buckets
      → turn libs lone_rpcs (at i (suc k) 0 m false output intermediate outputs)
        ≡ ok (at (suc i) k 0 m false output (insert i buckets intermediate) outputs, true)
  unfolding rpcs_of
  map_turn i k name bytes output intermediate outputs buckets e f h d =
      let (c, got, ended) = map_job-lone fs ip address files m i k name bytes e f h in
      let reply = map_reply fs ip address files m i name bytes in
      let world = ap (did_work (record { coordinator = c; output = output })) ended in
      map_turn_lem libs lone_rpcs (at i (suc k) 0 m false output intermediate outputs) _ reply
        buckets (replicate (suc i) true ++ replicate k false)
        (asked i (suc k) 0 m output c reply got) refl d
        (store-filled i true false true (replicate k false)
          ∙ ap ok (replicate-fill i true (replicate k false)))
      ∙ ap
          (λ w. ok (
            record (at (suc i) k 0 m false output (insert i buckets intermediate) outputs) {
              world = w;
            },
            true,
          ))
          world

  pub collect_own :
      (i r l : ℕ) (output : IntMap Bytes) (intermediate : IntMap Buckets) (outputs : IntMap Lines)
      (c : Coordinator)
      → (let s : State System = at i 0 r l false output intermediate outputs in
          let s' : State System = record s {
            world = record { coordinator = c; output = output };
          } in
          collect libs lone_rpcs s' r (locations (owners i) ((1, address) ∷ []))
          ≡ ok (s', some (collected libs i intermediate r)))
  unfolding collect source_of retreive_files locations lookup
  collect_own zero r l output intermediate outputs c = refl
  collect_own (suc i) r l output intermediate outputs c =
      rw (append-nil (append_files r (libs.glob intermediate)))

  pub reduce_turn :
      (i r l : ℕ) (output : IntMap Bytes) (intermediate : IntMap Buckets) (outputs : IntMap Lines)
      (lines : Lines)
      → r < m
      → do_reduce libs.sort libs.reducef (collected libs i intermediate r) ≡ some lines
      → turn libs lone_rpcs (at i 0 r (suc l) false output intermediate outputs)
        ≡ ok (
          at i 0
              (suc r)
              l
              false
              (insert r (libs.show_lines lines) output)
              intermediate
              (insert r lines outputs),
          true,
        )
  unfolding rpcs_of
  reduce_turn i r l output intermediate outputs lines h d =
      let (c, got, ended) = reduce_job-lone fs ip address files m i r l h in
      let reply = reduce_reply fs ip address files m i r in
      let world =
        ap (did_work (record { coordinator = c; output = output }))
          (ended (libs.show_lines lines)) in
      reduce_turn_lem libs lone_rpcs (at i 0 r (suc l) false output intermediate outputs) _ reply
        (collected libs i intermediate r) lines (replicate (suc r) true ++ replicate l false)
        (asked i 0 r (suc l) output c reply got) refl
        (collect_own i r (suc l) output intermediate outputs c) d
        (store-filled r true false true (replicate l false)
          ∙ ap ok (replicate-fill r true (replicate l false)))
      ∙ ap
          (λ w. ok (
            record (at i 0 (suc r) l false output intermediate (insert r lines outputs)) {
              world = w;
            },
            true,
          ))
          world

  -- When every job is finished, the loop ends.
  pub last_turn :
      (i r : ℕ) (output : IntMap Bytes) (intermediate : IntMap Buckets) (outputs : IntMap Lines)
      → turn libs lone_rpcs (at i 0 r 0 false output intermediate outputs)
        ≡ ok (at i 0 r 0 true output intermediate outputs, false)
  last_turn i r output intermediate outputs =
      last_turn_lem libs lone_rpcs (at i 0 r 0 false output intermediate outputs) _ _
        (asked i 0 r 0 output _ _ (nowork-lone fs ip address files m i 0 r 0)) refl
