-- ===== src/Coordinator/Types.antt =====
-- The state of the coordinator and the messages of its RPC interface: mr/coordinator.go (structs)
-- and mr/rpc.go. A Go `int` that is only an index, a counter or a worker id handed out by the
-- coordinator is a natural number.
use tda596labs.Base.{ℕ, Bool, String, List}
use tda596labs.Base.IntMap.{IntMap}

abbrev pub Bytes : Type 0
Bytes = List ℕ

-- `const TIMEOUT`, in rounds of `serverHandler`.
abbrev pub timeout : ℕ
timeout = 10

pub record WorkChunk : Type 0 where
  pub worker_id : ℕ
  pub completed : Bool

pub record ReduceTracker : Type 0 where
  pub current_job : ℕ
  pub completed_reducers : List WorkChunk
  pub reduce_worker_ids : IntMap Bool

pub record MapTracker : Type 0 where
  pub files : List String
  pub num_files : ℕ
  pub current_job : ℕ
  pub completed_mappers : List WorkChunk
  pub map_worker_ids : IntMap Bool

pub record Coordinator : Type 0 where
  pub ip_address : String
  pub is_done : Bool
  pub nreduce : ℕ
  pub mapper_timeout : List ℕ
  pub reducer_timeout : List ℕ
  pub workers : IntMap String
  pub next_worker_id : ℕ
  pub mapper : MapTracker
  pub reducer : ReduceTracker

pub record WorkerLocation : Type 0 where
  pub worker_id : ℕ
  pub address : String

pub record WorkReply : Type 0 where
  pub work_type : ℕ
  pub job_id : ℕ
  pub num_files : ℕ
  pub nreduce : ℕ
  pub map_file_name : String
  pub map_file_content : Bytes
  pub reduce_file_locations : List WorkerLocation

pub record WorkSetup : Type 0 where
  pub worker_id : ℕ
  pub num_files : ℕ
  pub nreduce : ℕ

pub record WorkComplete : Type 0 where
  pub work_type : ℕ
  pub job_id : ℕ
  pub output_file : Bytes
  pub worker_id : ℕ

pub record JobFailed : Type 0 where
  pub unreachable_worker : WorkerLocation
  pub work_type : ℕ
  pub job_id : ℕ

-- What the file system answers when an input file is opened and read.
pub data FileRead : Type 0 where
  open_failed : FileRead
  read_failed : FileRead
  content : Bytes → FileRead
