-- ===== src/Examples/Jobs.antt =====
-- Concrete coordinators of mr/coordinator.go: fresh, with jobs handed out, and after a crash.
use tda596labs.Base.{
  length, get_elem?, replicate, All, ◌>>=◌, Returns, ℕ, String, ◌≡◌, refl, ◌≢◌, inl, inr, Bool,
  true, false, none, some, List, [], ◌∷◌, arith,
}
use tda596labs.Base.IntMap.{lookup}
use tda596labs.Coordinator.Types.{
  Coordinator, WorkComplete, JobFailed, FileRead, open_failed, content,
}
use tda596labs.Coordinator.Method.{reduce}
use tda596labs.Coordinator.Jobs.{all_completed}
use tda596labs.Coordinator.Handlers.{
  make_coordinator, empty_reply, get_work, worker_dead, work_done,
}
use tda596labs.Coordinator.Bounds.{IsWellFormed}
use tda596labs.Coordinator.Runs.{Event, asks, completes, reports, joins, ticks, run, InRange}
use tda596labs.Coordinator.Invariant.{Inv}
use tda596labs.Coordinator.Safety.{run-Inv}
use tda596labs.Coordinator.Recovery.{late_work_done}
use tda596labs.Coordinator.Retries.{AllOut, GivesMap, GivesRetry, Stalled, silent_job_retried}
use tda596labs.Coordinator.Replies.{CoversOwner, reduce_reply_covers, completed_job_repeated}

abbrev disk : String → FileRead
disk name = content (104 ∷ 105 ∷ [])

disk_readable : (name : String) → disk name ≢ open_failed
disk_readable name e = cc

abbrev two_files : List String
two_files = "pg-grimm.txt" ∷ "pg-huckleberry_finn.txt" ∷ []

abbrev crash : JobFailed
crash = record {
  unreachable_worker = record { worker_id = 1; address = "10.0.0.1" };
  work_type = tda596labs.Coordinator.Method.reduce;
  job_id = 0;
}

abbrev first_done : WorkComplete
first_done = record {
  work_type = tda596labs.Coordinator.Method.map;
  job_id = 0;
  output_file = [];
  worker_id = 1;
}

-- Both map jobs are with worker 1, whose timers run; `first` and `second` tell what is completed.
abbrev busy : Bool → Bool → ℕ → Coordinator
busy first second timer = record {
  ip_address = "10.0.0.9";
  is_done = false;
  nreduce = 1;
  mapper_timeout = timer ∷ 3 ∷ [];
  reducer_timeout = 0 ∷ [];
  workers = (1, "10.0.0.1") ∷ [];
  next_worker_id = 2;
  mapper = record {
    files = two_files;
    num_files = 2;
    current_job = 2;
    completed_mappers =
        record { worker_id = 1; completed = first }
        ∷ record { worker_id = 1; completed = second }
        ∷ [];
    map_worker_ids = (1, true) ∷ [];
  };
  reducer = record {
    current_job = 0;
    completed_reducers = record { worker_id = 0; completed = false } ∷ [];
    reduce_worker_ids = [];
  };
}

busy-IsWellFormed : (first second : Bool) (timer : ℕ) → IsWellFormed (busy first second timer)
busy-IsWellFormed first second timer = omega arith

busy-Inv : (first second : Bool) (timer : ℕ) → Inv 2 1 (busy first second timer)
unfolding lookup
busy-Inv first second timer = record {
  well_formed = busy-IsWellFormed first second timer;
  files_fixed = refl;
  reduces_fixed = refl;
  owners_listed = (inr refl, (inr refl, tt));
  done_sound = inl refl;
}

busy-AllOut : (timer : ℕ) → AllOut (busy true false timer)
unfolding all_completed
busy-AllOut timer = record { running = refl; unfinished = refl; at_end = refl }

abbrev session : List Event
session =
    joins "10.0.0.1"
    ∷ asks 1
    ∷ asks 1
    ∷ completes true first_done
    ∷ ticks
    ∷ reports crash
    ∷ asks 2
    ∷ []

session-InRange : All (InRange (length two_files) 1) session
session-InRange = (
  tt,
  (tt, (tt, ((inr (omega arith), inl (λ e. absurd (omega arith))), (tt, (omega arith, (tt, tt)))))),
)

run-Inv_example :
    Returns (run disk (make_coordinator "10.0.0.9" two_files 1) session) (Inv (length two_files) 1)
run-Inv_example = run-Inv disk disk_readable "10.0.0.9" two_files 1 session session-InRange

reduce_reply_covers_example :
    Returns
      (get_work disk (busy true true 4) 1 empty_reply)
      (λ r. CoversOwner (busy true true 4) 1 r.1)
reduce_reply_covers_example =
    reduce_reply_covers disk disk_readable (busy true true 4) 1 0
      (record { worker_id = 1; completed = true }) (busy-Inv true true 4) refl
      (λ e. absurd (omega arith))

late_work_done_example :
    Returns (worker_dead (busy false false 4) crash >>= λ c. work_done true c first_done) (λ r.
      (get_elem? r.0.mapper.completed_mappers 0 ≡ some (record { worker_id = 0; completed = true }))
      × (lookup 1 r.0.mapper.map_worker_ids ≡ none))
late_work_done_example =
    late_work_done (busy false false 4) crash first_done true
      (record { worker_id = 1; completed = false }) (busy-Inv false false 4) (omega arith) refl refl
      (omega arith) refl refl

second-Stalled : Stalled (busy true false 4) 1 3 (record { worker_id = 1; completed = false })
second-Stalled = record {
  formed = busy-IsWellFormed true false 4;
  out = busy-AllOut 4;
  in_table = refl;
  timer = refl;
  started = omega arith;
  owned = omega arith;
  pending = refl;
}

silent_job_retried_example :
    Returns
      (run disk (busy true false 4) (replicate 10 ticks))
      (λ c. Returns (get_work disk c 2 empty_reply) (GivesRetry c 1))
silent_job_retried_example =
    silent_job_retried disk disk_readable (busy true false 4) 1 3
      (record { worker_id = 1; completed = false }) 2 empty_reply second-Stalled

completed_job_repeated_example :
    Returns (get_work disk (busy true false 11) 2 empty_reply) (λ r. GivesMap r × (r.1.job_id ≡ 0))
completed_job_repeated_example =
    completed_job_repeated disk disk_readable (busy true false 11) 2 empty_reply 11
      (record { worker_id = 1; completed = true }) (busy-IsWellFormed true false 11)
      (busy-AllOut 11) refl (omega arith) refl refl
