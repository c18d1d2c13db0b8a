-- ===== src/Worker/Turns.antt =====
-- One turn of the loop of `Worker` in mr/worker.go, by what the coordinator answers.
use tda596labs.Coordinator.Types.{WorkReply}
use tda596labs.Base.{
  ◌==◌, ok, ◌>>=◌, store, ◌≡◌, refl, ap, ◌∙◌, Bool, true, false, none, some, List, [], arith,
}
use tda596labs.Base.IntMap.{lookup, insert, lookup-insert}
use tda596labs.Worker.Tasks.{KeyValue, do_map, do_reduce}
use tda596labs.Worker.Process.{
  Buckets, Lines, Libs, Rpcs, State, update_working_completed_files, call_done, do_map_task,
  collect, reduce_pairs, do_reduce_task, turn,
}

module _ {W : Type 0} (libs : Libs) (rpcs : Rpcs W) where
  map_task_lem :
      (s : State W) (reply : WorkReply) (buckets : Buckets) (tasks : List Bool)
      → reply.work_type ≡ tda596labs.Coordinator.Method.map
      → do_map libs.sum32 reply.nreduce
          (libs.mapf reply.map_file_name (libs.to_text reply.map_file_content))
        ≡ ok buckets
      → store s.worker.completed_map_tasks reply.job_id true ≡ ok tasks
      → do_map_task libs rpcs s reply
        ≡ ok (record {
          world = rpcs.work_done s.world (record {
            work_type = tda596labs.Coordinator.Method.map;
            job_id = reply.job_id;
            output_file = [];
            worker_id = s.worker.worker_id;
          });
          worker = record (s.worker) { completed_map_tasks = tasks };
          disk = record (s.disk) { intermediate = insert reply.job_id buckets s.disk.intermediate };
        })
  unfolding do_map_task call_done update_working_completed_files
  map_task_lem s reply buckets tasks t d f = rw (t, d, f) refl

  pub map_turn_lem :
      (s : State W) (w : W) (reply : WorkReply) (buckets : Buckets) (tasks : List Bool)
      → rpcs.get_work s.world s.worker.worker_id ≡ (w, some reply)
      → reply.work_type ≡ tda596labs.Coordinator.Method.map
      → do_map libs.sum32 reply.nreduce
          (libs.mapf reply.map_file_name (libs.to_text reply.map_file_content))
        ≡ ok buckets
      → store s.worker.completed_map_tasks reply.job_id true ≡ ok tasks
      → turn libs rpcs s
        ≡ ok (
          record {
            world = rpcs.work_done w (record {
              work_type = tda596labs.Coordinator.Method.map;
              job_id = reply.job_id;
              output_file = [];
              worker_id = s.worker.worker_id;
            });
            worker = record (s.worker) { completed_map_tasks = tasks };
            disk = record (s.disk) {
              intermediate = insert reply.job_id buckets s.disk.intermediate;
            };
          },
          true,
        )
  unfolding turn
  map_turn_lem s w reply buckets tasks e t d f =
      let not_done : (reply.work_type == tda596labs.Coordinator.Method.nowork) ≡ false =
        ground arith in
      let not_waiting : (reply.work_type == tda596labs.Coordinator.Method.wait) ≡ false =
        ground arith in
      let is_map : (reply.work_type == tda596labs.Coordinator.Method.map) ≡ true = ground arith in
      rw (
        turn,
        ap (λ r. r.1) e,
        ap (λ r. r.0) e,
        not_done,
        not_waiting,
        is_map,
        map_task_lem (record s { world = w }) reply buckets tasks t d f,
      )

  reduce_pairs_lem :
      (s : State W) (reply : WorkReply) (pairs : List KeyValue) (lines : Lines) (tasks : List Bool)
      → reply.work_type ≡ tda596labs.Coordinator.Method.reduce
      → do_reduce libs.sort libs.reducef pairs ≡ some lines
      → store s.worker.completed_reduce_tasks reply.job_id true ≡ ok tasks
      → reduce_pairs libs rpcs s reply pairs
        ≡ ok (record {
          world = rpcs.work_done s.world (record {
            work_type = tda596labs.Coordinator.Method.reduce;
            job_id = reply.job_id;
            output_file = libs.show_lines lines;
            worker_id = s.worker.worker_id;
          });
          worker = record (s.worker) { completed_reduce_tasks = tasks };
          disk = record (s.disk) { outputs = insert reply.job_id lines s.disk.outputs };
        })
  unfolding reduce_pairs call_done update_working_completed_files
  reduce_pairs_lem s reply pairs lines tasks t d f =
      let found : lookup reply.job_id (insert reply.job_id lines s.disk.outputs) ≡ some lines =
        ground (arith, lookup-insert reply.job_id reply.job_id lines s.disk.outputs) in
      rw (reduce_pairs, d, t, found, f)

  pub reduce_turn_lem :
      (s : State W) (w : W) (reply : WorkReply) (pairs : List KeyValue) (lines : Lines)
      (tasks : List Bool)
      → rpcs.get_work s.world s.worker.worker_id ≡ (w, some reply)
      → reply.work_type ≡ tda596labs.Coordinator.Method.reduce
      → collect libs rpcs (record s { world = w }) reply.job_id reply.reduce_file_locations
        ≡ ok (record s { world = w }, some pairs)
      → do_reduce libs.sort libs.reducef pairs ≡ some lines
      → store s.worker.completed_reduce_tasks reply.job_id true ≡ ok tasks
      → turn libs rpcs s
        ≡ ok (
          record {
            world = rpcs.work_done w (record {
              work_type = tda596labs.Coordinator.Method.reduce;
              job_id = reply.job_id;
              output_file = libs.show_lines lines;
              worker_id = s.worker.worker_id;
            });
            worker = record (s.worker) { completed_reduce_tasks = tasks };
            disk = record (s.disk) { outputs = insert reply.job_id lines s.disk.outputs };
          },
          true,
        )
  unfolding turn do_reduce_task reduce_pairs
  reduce_turn_lem s w reply pairs lines tasks e t g d f =
      let task : do_reduce_task libs rpcs (record s { world = w }) reply ≡ ok _ =
        ap
          (λ o. o >>= λ r. elim (r.1) [
            | none ↦ ok (r.0)
            | some found ↦ reduce_pairs libs rpcs (r.0) reply found
          ])
          g
        ∙ reduce_pairs_lem (record s { world = w }) reply pairs lines tasks t d f in
      rw (turn, ap (λ r. r.1) e, ap (λ r. r.0) e, t, task)

  pub last_turn_lem :
      (s : State W) (w : W) (reply : WorkReply)
      → rpcs.get_work s.world s.worker.worker_id ≡ (w, some reply)
      → reply.work_type ≡ tda596labs.Coordinator.Method.nowork
      → turn libs rpcs s ≡ ok (record s { world = w }, false)
  unfolding turn
  last_turn_lem s w reply e t = rw (turn, ap (λ r. r.1) e, ap (λ r. r.0) e, t)
