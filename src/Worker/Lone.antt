-- ===== src/Worker/Lone.antt =====
-- What the coordinator of mr/coordinator.go does for one worker that finishes each job before it
-- asks for the next.
use tda596labs.Coordinator.Types.{Bytes, Coordinator, WorkReply, WorkComplete, FileRead, content}
use tda596labs.Coordinator.Handlers.{
  empty_reply, locations, get_reduce_file_locations, get_map_file_content, assign_map, get_map_job,
  assign_reduce, get_reduce_job, get_work, mark_completed, work_done, server_tick,
}
use tda596labs.Coordinator.Runs.{ticks, step, run}
use tda596labs.Base.{
  ◌==◌, length, replicate, ok, index, ℕ, zero, suc, ◌+◌, ◌<◌, String, ◌≡◌, refl, ap, ◌∙◌, Bool,
  true, false, ◌||◌, none, some, List, [], ◌∷◌, ◌++◌, arith,
}
use tda596labs.Base.IntMap.{IntMap, insert}
use tda596labs.Worker.Tables.{
  index-filled, store-filled, replicate-fill, fresh_chunk, finished_chunk, chunks, timers,
  all_completed-finished, all_completed-open, tick_timers-chunks,
}

-- The workers that hold map or reduce output: worker 1, once it has done a job.
abbrev pub owners : ℕ → IntMap Bool
owners zero = []
owners (suc i) = (1, true) ∷ []

pub insert-owner : (i : ℕ) → insert 1 true (owners i) ≡ (1, true) ∷ []
unfolding insert
insert-owner zero = refl
insert-owner (suc i) = refl

-- No job is left.
abbrev pub none_left : ℕ → ℕ → Bool
none_left zero zero = true
none_left zero (suc l) = false
none_left (suc k) l = false

module _ (fs : String → FileRead) (ip address : String) (files : List String) (m : ℕ) where
  -- Worker 1 has joined; `i` map jobs and `r` reduce jobs are finished, `k` and `l` are left.
  abbrev pub lone : ℕ → ℕ → ℕ → ℕ → Bool → Coordinator
  lone i k r l over = record {
    ip_address = ip;
    is_done = over;
    nreduce = m;
    mapper_timeout = timers i k;
    reducer_timeout = timers r l;
    workers = (1, address) ∷ [];
    next_worker_id = 2;
    mapper = record {
      files = files;
      num_files = length files;
      current_job = i;
      completed_mappers = chunks i k;
      map_worker_ids = owners i;
    };
    reducer = record {
      current_job = r;
      completed_reducers = chunks r l;
      reduce_worker_ids = owners r;
    };
  }

  pub server_tick-lone :
      (i k r l : ℕ) (over : Bool)
      → server_tick (lone i k r l over) ≡ ok (lone i k r l (over || none_left k l))
  unfolding server_tick
  server_tick-lone i zero r zero true =
      rw (all_completed-finished i, all_completed-finished r, tick_timers-chunks r 0)
  server_tick-lone i zero r zero false =
      rw (all_completed-finished i, all_completed-finished r, tick_timers-chunks r 0)
  server_tick-lone i zero r (suc l) true =
      rw (all_completed-finished i, all_completed-open r l, tick_timers-chunks r (suc l))
  server_tick-lone i zero r (suc l) false =
      rw (all_completed-finished i, all_completed-open r l, tick_timers-chunks r (suc l))
  server_tick-lone i (suc k) r l true = rw (all_completed-open i k, tick_timers-chunks i (suc k))
  server_tick-lone i (suc k) r l false = rw (all_completed-open i k, tick_timers-chunks i (suc k))

  pub ticks-lone :
      (pause i k r l : ℕ) (over : Bool)
      → run fs (lone i k r l over) (replicate (suc pause) ticks)
        ≡ ok (lone i k r l (over || none_left k l))
  unfolding run step
  ticks-lone zero i k r l over = rw (server_tick-lone i k r l over)
  ticks-lone (suc pause) i k r l over = rw (server_tick-lone i k r l over) (
      ticks-lone pause i k r l (over || none_left k l)
      ∙ ap (λ b. ok (lone i k r l b)) (again over (none_left k l)))
    where
      again : (a b : Bool) → ((a || b) || b) ≡ (a || b)
      again true b = refl
      again false true = refl
      again false false = refl

  -- The reply for map job `i`.
  abbrev pub map_reply : ℕ → String → Bytes → WorkReply
  map_reply i name bytes = record {
    work_type = tda596labs.Coordinator.Method.map;
    job_id = i;
    num_files = length files;
    nreduce = m;
    map_file_name = name;
    map_file_content = bytes;
    reduce_file_locations = [];
  }

  abbrev pub reduce_reply : ℕ → ℕ → WorkReply
  reduce_reply i r = record {
    work_type = tda596labs.Coordinator.Method.reduce;
    job_id = r;
    num_files = length files;
    nreduce = m;
    map_file_name = "";
    map_file_content = [];
    reduce_file_locations = locations (owners i) ((1, address) ∷ []);
  }

  abbrev map_done : ℕ → WorkComplete
  map_done i = record {
    work_type = tda596labs.Coordinator.Method.map;
    job_id = i;
    output_file = [];
    worker_id = 1;
  }

  -- Map job `i` goes to worker 1, and its completion comes back.
  pub map_job-lone :
      (i k : ℕ) (name : String) (bytes : Bytes)
      → index files i ≡ ok name
      → fs name ≡ content bytes
      → i < length files
      → (c : Coordinator) × (get_work fs (lone i (suc k) 0 m false) 1 empty_reply
          ≡ ok (c, map_reply i name bytes))
        × (work_done true c (map_done i) ≡ ok (lone (suc i) k 0 m false, none))
  unfolding get_work get_map_job assign_map get_map_file_content work_done mark_completed
  map_job-lone i k name bytes e f h =
      let assigned : Coordinator = record (lone i (suc k) 0 m false) {
        mapper_timeout = timers (suc i) k;
        mapper = record {
          files = files;
          num_files = length files;
          current_job = i + 1;
          completed_mappers =
              replicate i finished_chunk
              ++ record { worker_id = 1; completed = false } ∷ replicate k fresh_chunk;
          map_worker_ids = owners (suc i);
        };
      } in
      let one_more : i + 1 ≡ suc i = omega arith in
      let apart : (i == length files) ≡ false = ground arith in
      (
        assigned,
        rw (
          all_completed-open i k,
          apart,
          e,
          f,
          index-filled i finished_chunk fresh_chunk (replicate k fresh_chunk),
          store-filled i finished_chunk fresh_chunk (record { worker_id = 1; completed = false })
              (replicate k fresh_chunk),
          store-filled {A = ℕ} i 1 0 1 (replicate k 0),
          replicate-fill {A = ℕ} i 1 (replicate k 0),
          insert-owner i,
        ),
        rw (
          index-filled i finished_chunk (record { worker_id = 1; completed = false })
              (replicate k fresh_chunk),
          store-filled i finished_chunk (record { worker_id = 1; completed = false }) finished_chunk
              (replicate k fresh_chunk),
          replicate-fill i finished_chunk (replicate k fresh_chunk),
          one_more,
        ),
      )

  abbrev pub reduce_done : ℕ → Bytes → WorkComplete
  reduce_done r out = record {
    work_type = tda596labs.Coordinator.Method.reduce;
    job_id = r;
    output_file = out;
    worker_id = 1;
  }

  -- Reduce job `r` goes to worker 1, and its completion comes back.
  pub reduce_job-lone :
      (i r l : ℕ)
      → r < m
      → (c : Coordinator) × (get_work fs (lone i 0 r (suc l) false) 1 empty_reply
          ≡ ok (c, reduce_reply i r))
        × ((out : Bytes)
            → work_done true c (reduce_done r out) ≡ ok (lone i 0 (suc r) l false, some (r, out)))
  unfolding get_work get_reduce_job assign_reduce get_reduce_file_locations work_done mark_completed
  reduce_job-lone i r l h =
      let assigned : Coordinator = record (lone i 0 r (suc l) false) {
        reducer_timeout = timers (suc r) l;
        reducer = record {
          current_job = r + 1;
          completed_reducers =
              replicate r finished_chunk
              ++ record { worker_id = 1; completed = false } ∷ replicate l fresh_chunk;
          reduce_worker_ids = owners (suc r);
        };
      } in
      let one_more : r + 1 ≡ suc r = omega arith in
      let apart : (r == m) ≡ false = ground arith in
      (
        assigned,
        rw (
          all_completed-finished i,
          apart,
          index-filled r finished_chunk fresh_chunk (replicate l fresh_chunk),
          store-filled r finished_chunk fresh_chunk (record { worker_id = 1; completed = false })
              (replicate l fresh_chunk),
          store-filled {A = ℕ} r 1 0 1 (replicate l 0),
          replicate-fill {A = ℕ} r 1 (replicate l 0),
          insert-owner r,
        ),
        λ out. rw (
          index-filled r finished_chunk (record { worker_id = 1; completed = false })
              (replicate l fresh_chunk),
          store-filled r finished_chunk (record { worker_id = 1; completed = false }) finished_chunk
              (replicate l fresh_chunk),
          replicate-fill r finished_chunk (replicate l fresh_chunk),
          one_more,
        ),
      )

  -- When all is done the worker is sent home.
  pub nowork-lone :
      (i k r l : ℕ)
      → get_work fs (lone i k r l true) 1 empty_reply
        ≡ ok (
          lone i k r l true,
          record empty_reply { work_type = tda596labs.Coordinator.Method.nowork },
        )
  unfolding get_work
  nowork-lone i k r l = refl
