-- ===== src/Coordinator/Handlers.antt =====
-- The constructor, the RPC handlers and one round of `serverHandler` of mr/coordinator.go.
use tda596labs.Base.{
  ℕ, ◌+◌, Bool, true, false, ◌&&◌, List, [], ◌∷◌, Option, none, some, ◌==◌, if◌then◌else◌, Outcome,
  ok, fatal, ◌>>=◌, index, store, String, length, replicate, not,
}
use tda596labs.Base.IntMap.{IntMap, lookup, insert, delete}
use tda596labs.Coordinator.Types.{
  WorkChunk, Coordinator, WorkerLocation, WorkReply, WorkSetup, WorkComplete, JobFailed, FileRead,
  open_failed, read_failed, content, Bytes,
}
use tda596labs.Coordinator.Method
use tda596labs.Coordinator.Jobs.{all_completed, find_retry, clear_dead, tick_timers}

-- `MakeCoordinator`, up to the start of the server; `ip` is what `GetOutboundIP` returns.
unfoldable pub make_coordinator : String → List String → ℕ → Coordinator
make_coordinator ip files nreduce =
    let num_files : ℕ = length files in
    let fresh : WorkChunk = record { worker_id = 0; completed = false } in
    record {
      ip_address = ip;
      is_done = false;
      nreduce = nreduce;
      mapper_timeout = replicate num_files 0;
      reducer_timeout = replicate nreduce 0;
      workers = [];
      next_worker_id = 1;
      mapper = record {
        files = files;
        num_files = num_files;
        current_job = 0;
        completed_mappers = replicate num_files fresh;
        map_worker_ids = [];
      };
      reducer = record {
        current_job = 0;
        completed_reducers = replicate nreduce fresh;
        reduce_worker_ids = [];
      };
    }

-- `WorkReply{}`, as the RPC server hands it to the handler.
abbrev pub empty_reply : WorkReply
empty_reply = record {
  work_type = Method.unset;
  job_id = 0;
  num_files = 0;
  nreduce = 0;
  map_file_name = "";
  map_file_content = [];
  reduce_file_locations = [];
}

-- A missing key reads as the zero value.
abbrev pub address_of : Option String → String
address_of none = ""
address_of (some address) = address

-- The loop of `getReduceFileLocations` over the keys of `mapWorkerIds`.
unfoldable pub locations : IntMap Bool → IntMap String → List WorkerLocation
locations [] workers = []
locations ((id, _) ∷ ids) workers =
    record { worker_id = id; address = address_of (lookup id workers) } ∷ locations ids workers

unfoldable pub get_reduce_file_locations : Coordinator → List WorkerLocation
get_reduce_file_locations c = locations c.mapper.map_worker_ids c.workers

abbrev pub file_bytes : FileRead → Outcome Bytes
file_bytes open_failed = fatal
file_bytes read_failed = ok []
file_bytes (content bytes) = ok bytes

-- The file system is the environment's: what it answers for a name is the parameter `fs`.
module _ (fs : String → FileRead) where
  unfoldable pub get_map_file_content : Coordinator → ℕ → Outcome Bytes
  get_map_file_content c map_file_id =
      index c.mapper.files map_file_id >>= λ name. file_bytes (fs name)

  -- Hand map job `job_id` to `worker_id`: the lines that `getMapJob` and `retryMapper` share.
  unfoldable pub assign_map : Coordinator → WorkReply → ℕ → ℕ → Outcome (Coordinator × WorkReply)
  assign_map c reply worker_id job_id = do
    name ← index c.mapper.files job_id
    bytes ← get_map_file_content c job_id
    chunk ← index c.mapper.completed_mappers job_id
    chunks ← store c.mapper.completed_mappers job_id (record chunk { worker_id = worker_id })
    timers ← store c.mapper_timeout job_id 1
    ok (
      record c {
        mapper_timeout = timers;
        mapper = record (c.mapper) {
          completed_mappers = chunks;
          map_worker_ids = insert worker_id true c.mapper.map_worker_ids;
        };
      },
      record reply {
        work_type = Method.map;
        map_file_name = name;
        map_file_content = bytes;
        job_id = job_id;
        nreduce = c.nreduce;
        num_files = c.mapper.num_files;
      },
    )

  -- `retryMapper`; the Boolean says whether a job was found.
  unfoldable pub retry_mapper :
      Coordinator → WorkReply → ℕ → Outcome (Coordinator × WorkReply × Bool)
  retry_mapper c reply worker_id =
      find_retry 0 c.mapper_timeout c.mapper.completed_mappers >>= elim [
        | none ↦ ok (c, reply, false)
        | some job_id ↦ assign_map c reply worker_id job_id >>= λ r. ok (r.0, r.1, true)
      ]

  unfoldable pub get_map_job : Coordinator → WorkReply → ℕ → Outcome (Coordinator × WorkReply)
  get_map_job c reply worker_id =
      if c.mapper.current_job == c.mapper.num_files
      then (retry_mapper c reply worker_id >>= λ r.
          if r.2 then ok (r.0, r.1) else ok (r.0, record (r.1) { work_type = Method.wait }))
      else (assign_map c reply worker_id c.mapper.current_job >>= λ r. ok (
        record (r.0) { mapper = record (r.0.mapper) { current_job = r.0.mapper.current_job + 1 } },
        r.1,
      ))

-- Hand reduce job `job_id` to `worker_id`: the lines that `getReduceJob` and `retryReducer` share.
unfoldable pub assign_reduce : Coordinator → WorkReply → ℕ → ℕ → Outcome (Coordinator × WorkReply)
assign_reduce c reply worker_id job_id = do
  chunk ← index c.reducer.completed_reducers job_id
  chunks ← store c.reducer.completed_reducers job_id (record chunk { worker_id = worker_id })
  timers ← store c.reducer_timeout job_id 1
  ok (
    record c {
      reducer_timeout = timers;
      reducer = record (c.reducer) {
        completed_reducers = chunks;
        reduce_worker_ids = insert worker_id true c.reducer.reduce_worker_ids;
      };
    },
    record reply {
      work_type = Method.reduce;
      job_id = job_id;
      num_files = c.mapper.num_files;
      nreduce = c.nreduce;
      reduce_file_locations = get_reduce_file_locations c;
    },
  )

unfoldable pub retry_reducer :
    Coordinator → WorkReply → ℕ → Outcome (Coordinator × WorkReply × Bool)
retry_reducer c reply worker_id =
    find_retry 0 c.reducer_timeout c.reducer.completed_reducers >>= elim [
      | none ↦ ok (c, reply, false)
      | some job_id ↦ assign_reduce c reply worker_id job_id >>= λ r. ok (r.0, r.1, true)
    ]

unfoldable pub get_reduce_job : Coordinator → WorkReply → ℕ → Outcome (Coordinator × WorkReply)
get_reduce_job c reply worker_id =
    if c.reducer.current_job == c.nreduce
    then (retry_reducer c reply worker_id >>= λ r.
        if r.2 then ok (r.0, r.1) else ok (r.0, record (r.1) { work_type = Method.wait }))
    else (assign_reduce c reply worker_id c.reducer.current_job >>= λ r. ok (
      record (r.0) { reducer = record (r.0.reducer) { current_job = r.0.reducer.current_job + 1 } },
      r.1,
    ))

unfoldable pub get_work :
    (String → FileRead) → Coordinator → ℕ → WorkReply → Outcome (Coordinator × WorkReply)
get_work fs c worker_id reply =
    if c.is_done
    then ok (c, record reply { work_type = Method.nowork })
    else if all_completed c.mapper.completed_mappers
    then get_reduce_job c reply worker_id
    else get_map_job fs c reply worker_id

-- `clearAllWork`.
unfoldable pub clear_all_work : Coordinator → ℕ → Outcome Coordinator
clear_all_work c worker_id = do
  r ← clear_dead worker_id c.mapper.completed_mappers c.mapper_timeout
  ok (record c {
    mapper_timeout = r.1;
    workers = delete worker_id c.workers;
    mapper = record (c.mapper) {
      completed_mappers = r.0;
      map_worker_ids = delete worker_id c.mapper.map_worker_ids;
    };
  })

-- `WorkerDead`: the dead worker's map jobs and the failed reduce job start again.
unfoldable pub worker_dead : Coordinator → JobFailed → Outcome Coordinator
worker_dead c failed = do
  c1 ← clear_all_work c failed.unreachable_worker.worker_id
  chunk ← index c1.reducer.completed_reducers failed.job_id
  chunks ← store c1.reducer.completed_reducers failed.job_id (record chunk { worker_id = 0 })
  timers ← store c1.reducer_timeout failed.job_id 0
  ok (record c1 {
    reducer_timeout = timers;
    reducer = record (c1.reducer) { completed_reducers = chunks };
  })

-- `DoSetup`: a worker joins from `ip_address`.
unfoldable pub do_setup : Coordinator → String → Coordinator × WorkSetup
do_setup c ip_address = (
  record c {
    workers = insert c.next_worker_id ip_address c.workers;
    next_worker_id = c.next_worker_id + 1;
  },
  record { worker_id = c.next_worker_id; num_files = c.mapper.num_files; nreduce = c.nreduce },
)

-- `chunks[job].Completed = true`.
unfoldable pub mark_completed : List WorkChunk → ℕ → Outcome (List WorkChunk)
mark_completed chunks job_id = do
  chunk ← index chunks job_id
  store chunks job_id (record chunk { completed = true })

-- `WorkDone`. `create_ok` says whether `os.Create` succeeds; the file `mr-out-<job>` that is
-- written, if one is, comes back beside the state.
unfoldable pub work_done :
    Bool → Coordinator → WorkComplete → Outcome (Coordinator × Option (ℕ × Bytes))
work_done create_ok c complete =
    if complete.work_type == Method.map
    then (mark_completed c.mapper.completed_mappers complete.job_id >>= λ chunks.
        ok (record c { mapper = record (c.mapper) { completed_mappers = chunks } }, none))
    else if complete.work_type == Method.reduce
    then (mark_completed c.reducer.completed_reducers complete.job_id >>= λ chunks. ok (
      record c { reducer = record (c.reducer) { completed_reducers = chunks } },
      if create_ok then some (complete.job_id, complete.output_file) else none,
    ))
    else ok (c, none)

-- One round of `serverHandler`, between `Lock` and `Unlock`.
unfoldable pub server_tick : Coordinator → Outcome Coordinator
server_tick c =
    let mapper_done = all_completed c.mapper.completed_mappers in
    let reducer_done = all_completed c.reducer.completed_reducers in
    let c1 : Coordinator = if mapper_done && reducer_done then record c { is_done = true } else c in
    if not mapper_done
    then (tick_timers c1.mapper_timeout c1.mapper.completed_mappers >>= λ timers.
        ok (record c1 { mapper_timeout = timers }))
    else (tick_timers c1.reducer_timeout c1.reducer.completed_reducers >>= λ timers.
        ok (record c1 { reducer_timeout = timers }))

-- `Done`, which main/mrcoordinator.go polls.
unfoldable pub done : Coordinator → Bool
done c = c.is_done
