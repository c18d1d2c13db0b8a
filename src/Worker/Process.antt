-- ===== src/Worker/Process.antt =====
-- The worker process of Lab2_MapReduce/src/mr/worker.go: its set-up, its loop, its map and reduce
-- tasks with the files that they leave, and its RPCs. The coordinator and the other workers are the
-- interface `Rpcs`; what the standard library and the application do is the interface `Libs`.
use tda596labs.Coordinator.Types.{
  Bytes, WorkerLocation, WorkReply, WorkSetup, WorkComplete, JobFailed,
}
use tda596labs.Coordinator.Handlers.{locations}
use tda596labs.Base.{
  ◌==◌, if◌then◌else◌, replicate, Outcome, ok, panic, fatal, ◌>>=◌, index, store, ℕ, zero, suc,
  String, ◌≡◌, refl, Bool, true, false, Option, none, some, List, [], ◌∷◌, ◌++◌,
}
use tda596labs.Base.IntMap.{IntMap, lookup, insert}
use tda596labs.Worker.Tasks.{
  KeyValue, do_map, do_reduce, own_files, other_worker, failing, source_of,
}
use mathlib.Core.Option
use tda596labs.Coordinator.Method.{reduce, wait, nowork}
use Prim.Native.String.{◌∷◌ as str_cons}
use Prim.Native.Char.{code}

abbrev pub Buckets : Type 0
Buckets = List (List KeyValue)

abbrev pub Lines : Type 0
Lines = List (String × String)

-- FNV-1a, the sort by key, `fmt` for the lines of an output file, `string(bytes)`, and the order in
-- which a glob of `mr-*-b` names the map jobs' files. A file that the JSON encoder writes is the
-- pairs that the decoder reads back; the pattern's other match, `mr-out-b`, is named last, and the
-- decoder stops there. Files can be created, read and encoded.
pub record Libs : Type 0 where
  pub sum32 : String → ℕ
  pub sort : List KeyValue → List KeyValue
  pub show_lines : Lines → Bytes
  pub to_text : Bytes → String
  pub glob : IntMap Buckets → IntMap Buckets
  pub mapf : String → String → List KeyValue
  pub reducef : String → List String → String

-- The RPCs of a worker, over a world `W`: `none` and `false` stand for a call that fails.
pub record Rpcs (W : Type 0) : Type 0 where
  pub setup : W → String → W × Option WorkSetup
  pub get_work : W → ℕ → W × Option WorkReply
  pub work_done : W → WorkComplete → W
  pub worker_dead : W → JobFailed → W × Bool
  pub get_files : W → String → ℕ → Option (List KeyValue)

pub record WorkerProcess : Type 0 where
  pub is_setup : Bool
  pub ip_address : String
  pub port : String
  pub worker_id : ℕ
  pub completed_map_tasks : List Bool
  pub completed_reduce_tasks : List Bool

-- The worker's directory: `mr-<job>-<b>` by map job, and `mr-out-<job>` by reduce job.
pub record Disk : Type 0 where
  pub intermediate : IntMap Buckets
  pub outputs : IntMap Lines

-- The worker and its directory, in the world that it acts on.
pub record State (W : Type 0) : Type 0 where
  pub world : W
  pub worker : WorkerProcess
  pub disk : Disk

-- `strings.Split(s, ":")`.
unfoldable pub split_colons : String → List String
split_colons String.[] = "" ∷ []
split_colons (str_cons c s) = elim (split_colons s) [
  | [] ↦ []
  | part ∷ parts ↦ if code c == 58 then "" ∷ part ∷ parts else str_cons c part ∷ parts
]

-- The file `mr-<job>-<b>`, if map job `job` left one.
abbrev pub bucket_file : ℕ → Buckets → List KeyValue
bucket_file b [] = []
bucket_file zero (kvs ∷ buckets) = kvs
bucket_file (suc b) (kvs ∷ buckets) = bucket_file b buckets

-- The contents of the files that a glob names, one after another.
unfoldable pub append_files : ℕ → IntMap Buckets → List KeyValue
append_files b [] = []
append_files b ((job, buckets) ∷ files) = bucket_file b buckets ++ append_files b files

module _ (libs : Libs) where
  -- `retreiveFiles` for MAPFILES, and so `GetMappedBuckets`, as pairs.
  unfoldable pub retreive_files : Disk → ℕ → List KeyValue
  retreive_files disk b = append_files b (libs.glob disk.intermediate)

  -- The handler `GetMappedBuckets` for MAPFILES, which is all that a worker asks for.
  unfoldable pub get_mapped_buckets : Disk → ℕ → List KeyValue
  get_mapped_buckets disk file_id = retreive_files disk file_id

  module _ {W : Type 0} (rpcs : Rpcs W) where
    -- `updateWorkingCompletedFiles`.
    unfoldable pub update_working_completed_files : WorkerProcess → ℕ → ℕ → Outcome WorkerProcess
    update_working_completed_files worker work_type job_id =
        if work_type == tda596labs.Coordinator.Method.map
        then (store worker.completed_map_tasks job_id true >>= λ tasks.
            ok (record worker { completed_map_tasks = tasks }))
        else (store worker.completed_reduce_tasks job_id true >>= λ tasks.
            ok (record worker { completed_reduce_tasks = tasks }))

    -- `ioutil.ReadAll` of the output file; a file that is not there reads as empty.
    abbrev out_content : Option Lines → Bytes
    out_content none = []
    out_content (some lines) = libs.show_lines lines

    -- `CallDone`.
    unfoldable pub call_done : State W → ℕ → ℕ → Outcome (State W)
    unfolding update_working_completed_files
    call_done s work_type job_id =
        let content : Bytes =
          if work_type == tda596labs.Coordinator.Method.reduce
          then out_content (lookup job_id s.disk.outputs)
          else [] in
        update_working_completed_files s.worker work_type job_id >>= λ worker. ok (record s {
          worker = worker;
          world = rpcs.work_done s.world (record {
            work_type = work_type;
            job_id = job_id;
            output_file = content;
            worker_id = worker.worker_id;
          });
        })

    -- `DoMap`.
    unfoldable pub do_map_task : State W → WorkReply → Outcome (State W)
    do_map_task s reply =
        do_map libs.sum32 reply.nreduce
          (libs.mapf reply.map_file_name (libs.to_text reply.map_file_content))
        >>= λ buckets.
            call_done
              (record s {
                disk = record (s.disk) {
                  intermediate = insert reply.job_id buckets s.disk.intermediate;
                };
              })
              reply.work_type reply.job_id

    -- The report of a reduce job that cannot get its files: the process exits if that fails too.
    unfoldable pub report_dead :
        State W → WorkerLocation → ℕ → Outcome (State W × Option (List KeyValue))
    report_dead s location job_id =
        let r = rpcs.worker_dead s.world (record {
          unreachable_worker = location;
          work_type = tda596labs.Coordinator.Method.reduce;
          job_id = job_id;
        }) in
        if r.1 then ok (record s { world = r.0 }, none) else fatal

    -- The collection loop of `DoReduce`, with `CallGetFiles`; `none` if the job is given up.
    unfoldable pub collect :
        State W → ℕ → List WorkerLocation → Outcome (State W × Option (List KeyValue))
    unfolding report_dead
    collect s job_id [] = ok (s, some [])
    collect s job_id (location ∷ locations) =
        let rest = collect s job_id locations in
        let dead = report_dead s location job_id in
        elim (source_of s.worker.worker_id s.worker.ip_address location.worker_id
          location.address) [
            | own_files ↦
                rest >>= λ r. ok (r.0, Option.map (λ kvs. retreive_files s.disk job_id ++ kvs) r.1)
            | other_worker ↦ elim (rpcs.get_files s.world location.address job_id) [
              | none ↦ dead
              | some kvs ↦ rest >>= λ r. ok (r.0, Option.map (λ more. kvs ++ more) r.1)
            ]
            | failing ↦ dead
          ]

    -- `DoReduce` behind its collection; `none` as the lines would be a loop that does not end.
    unfoldable pub reduce_pairs : State W → WorkReply → List KeyValue → Outcome (State W)
    reduce_pairs s reply pairs = elim (do_reduce libs.sort libs.reducef pairs) [
      | none ↦ panic
      | some lines ↦
          call_done
            (record s {
              disk = record (s.disk) { outputs = insert reply.job_id lines s.disk.outputs };
            })
            reply.work_type reply.job_id
    ]

    unfoldable pub do_reduce_task : State W → WorkReply → Outcome (State W)
    do_reduce_task s reply = collect s reply.job_id reply.reduce_file_locations >>= λ r.
        elim (r.1) [ none ↦ ok (r.0) | some pairs ↦ reduce_pairs (r.0) reply pairs ]

    -- One turn of the loop of `Worker`; the Boolean says whether the process goes on.
    unfoldable pub turn : State W → Outcome (State W × Bool)
    turn s =
        let r = rpcs.get_work s.world s.worker.worker_id in
        let s' : State W = record s { world = r.0 } in
        elim (r.1) [
          | none ↦ ok (s', false)
          | some reply ↦
              if reply.work_type == nowork
              then ok (s', false)
              else if reply.work_type == wait
              then ok (s', true)
              else if reply.work_type == tda596labs.Coordinator.Method.map
              then (do_map_task s' reply >>= λ t. ok (t, true))
              else (do_reduce_task s' reply >>= λ t. ok (t, true))
        ]

    -- The loop, with `fuel` turns left; `none` if the worker is still at work then.
    unfoldable pub work : ℕ → State W → Outcome (Option (State W))
    work zero s = ok none
    work (suc fuel) s =
        turn s >>= λ r. elim (r.1) [ false ↦ ok (some (r.0)) | true ↦ work fuel (r.0) ]

    -- `Worker` behind its first line: it exits if the coordinator cannot be reached.
    unfoldable pub join_and_work : ℕ → W → String → String → Outcome (Option (State W))
    join_and_work fuel world address port =
        let r = rpcs.setup world address in
        elim (r.1) [
          | none ↦ fatal
          | some reply ↦ work fuel (record {
            world = r.0;
            worker = record {
              is_setup = true;
              ip_address = address;
              port = port;
              worker_id = reply.worker_id;
              completed_map_tasks = replicate reply.num_files false;
              completed_reduce_tasks = replicate reply.nreduce false;
            };
            disk = record { intermediate = []; outputs = [] };
          })
        ]

    -- `Worker`: it panics on an address without a colon.
    unfoldable pub worker_main : ℕ → W → String → Outcome (Option (State W))
    worker_main fuel world address =
        index (split_colons address) 1 >>= λ port. join_and_work fuel world address port

    pub worker_main-addressed :
        (fuel : ℕ) (world : W) (address port : String)
        → index (split_colons address) 1 ≡ ok port
        → worker_main fuel world address ≡ join_and_work fuel world address port
    unfolding worker_main
    worker_main-addressed fuel world address port e = rw e refl
