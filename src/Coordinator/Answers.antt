-- ===== src/Coordinator/Answers.antt =====
-- What one call of `GetWork` can answer, and what it writes: a relation between the state before,
-- the reply and the state after, beside the code of mr/coordinator.go.
use tda596labs.Base.{get_elem?, set, ok, ℕ, ◌+◌, ◌<◌, String, ◌≡◌, true, false, none, some}
use tda596labs.Base.IntMap.{insert}
use tda596labs.Coordinator.Method.{reduce, wait, nowork}
use tda596labs.Coordinator.Types.{Bytes, WorkChunk, Coordinator, WorkReply, FileRead}
use tda596labs.Coordinator.Jobs.{all_completed, find_retry}
use tda596labs.Coordinator.Handlers.{get_reduce_file_locations, file_bytes}
use tda596labs.Coordinator.Method

-- The state and the reply after map job `j` went to worker `w`.
abbrev pub after_map :
    Coordinator → WorkReply → ℕ → ℕ → String → Bytes → WorkChunk → Coordinator × WorkReply
after_map c reply w j name bytes chunk = (
  record c {
    mapper_timeout = set c.mapper_timeout j 1;
    mapper = record (c.mapper) {
      completed_mappers = set c.mapper.completed_mappers j (record chunk { worker_id = w });
      map_worker_ids = insert w true c.mapper.map_worker_ids;
    };
  },
  record reply {
    work_type = Method.map;
    map_file_name = name;
    map_file_content = bytes;
    job_id = j;
    nreduce = c.nreduce;
    num_files = c.mapper.num_files;
  },
)

-- The state and the reply after reduce job `j` went to worker `w`.
abbrev pub after_reduce : Coordinator → WorkReply → ℕ → ℕ → WorkChunk → Coordinator × WorkReply
after_reduce c reply w j chunk = (
  record c {
    reducer_timeout = set c.reducer_timeout j 1;
    reducer = record (c.reducer) {
      completed_reducers = set c.reducer.completed_reducers j (record chunk { worker_id = w });
      reduce_worker_ids = insert w true c.reducer.reduce_worker_ids;
    };
  },
  record reply {
    work_type = Method.reduce;
    job_id = j;
    num_files = c.mapper.num_files;
    nreduce = c.nreduce;
    reduce_file_locations = get_reduce_file_locations c;
  },
)

abbrev pub next_map : Coordinator × WorkReply → Coordinator × WorkReply
next_map r = (
  record (r.0) { mapper = record (r.0.mapper) { current_job = r.0.mapper.current_job + 1 } },
  r.1,
)

abbrev pub next_reduce : Coordinator × WorkReply → Coordinator × WorkReply
next_reduce r = (
  record (r.0) { reducer = record (r.0.reducer) { current_job = r.0.reducer.current_job + 1 } },
  r.1,
)

module _ (fs : String → FileRead) (c : Coordinator) (w : ℕ) (reply : WorkReply) where
  -- Job `j` of the map table went to `w`, with the file's name and content, and `finish` after it.
  pub record GaveMap (finish : Coordinator × WorkReply → Coordinator × WorkReply) (j : ℕ)
      (r : Coordinator × WorkReply) : Type 0 where
    pub name : String
    pub bytes : Bytes
    pub chunk : WorkChunk
    pub in_files : get_elem? c.mapper.files j ≡ some name
    pub as_read : file_bytes (fs name) ≡ ok bytes
    pub in_table : get_elem? c.mapper.completed_mappers j ≡ some chunk
    pub result : r ≡ finish (after_map c reply w j name bytes chunk)

  pub record GaveReduce (finish : Coordinator × WorkReply → Coordinator × WorkReply) (j : ℕ)
      (r : Coordinator × WorkReply) : Type 0 where
    pub chunk : WorkChunk
    pub in_table : get_elem? c.reducer.completed_reducers j ≡ some chunk
    pub result : r ≡ finish (after_reduce c reply w j chunk)

  pub data Answer (r : Coordinator × WorkReply) : Type 0 where
    finished : c.is_done ≡ true → r ≡ (c, record reply { work_type = Method.nowork }) → Answer r
    first_map :
        c.is_done ≡ false
        → all_completed c.mapper.completed_mappers ≡ false
        → c.mapper.current_job < c.mapper.num_files
        → GaveMap next_map c.mapper.current_job r
        → Answer r
    again_map :
        c.is_done ≡ false
        → all_completed c.mapper.completed_mappers ≡ false
        → c.mapper.current_job ≡ c.mapper.num_files
        → (j : ℕ) → find_retry 0 c.mapper_timeout c.mapper.completed_mappers ≡ ok (some j)
        → GaveMap (λ x. x) j r
        → Answer r
    map_waits :
        c.is_done ≡ false
        → all_completed c.mapper.completed_mappers ≡ false
        → c.mapper.current_job ≡ c.mapper.num_files
        → find_retry 0 c.mapper_timeout c.mapper.completed_mappers ≡ ok none
        → r ≡ (c, record reply { work_type = Method.wait })
        → Answer r
    first_reduce :
        c.is_done ≡ false
        → all_completed c.mapper.completed_mappers ≡ true
        → c.reducer.current_job < c.nreduce
        → GaveReduce next_reduce c.reducer.current_job r
        → Answer r
    again_reduce :
        c.is_done ≡ false
        → all_completed c.mapper.completed_mappers ≡ true
        → c.reducer.current_job ≡ c.nreduce
        → (j : ℕ) → find_retry 0 c.reducer_timeout c.reducer.completed_reducers ≡ ok (some j)
        → GaveReduce (λ x. x) j r
        → Answer r
    reduce_waits :
        c.is_done ≡ false
        → all_completed c.mapper.completed_mappers ≡ true
        → c.reducer.current_job ≡ c.nreduce
        → find_retry 0 c.reducer_timeout c.reducer.completed_reducers ≡ ok none
        → r ≡ (c, record reply { work_type = Method.wait })
        → Answer r
