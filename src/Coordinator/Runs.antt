-- ===== src/Coordinator/Runs.antt =====
-- The coordinator as a machine: any interleaving of RPC handlers and rounds of `serverHandler`.
use tda596labs.Base.{Outcome, ok, ◌>>=◌, ℕ, ◌<◌, String, ◌≢◌, ◌⊎◌, Bool, List, [], ◌∷◌}
use tda596labs.Coordinator.Types.{Coordinator, WorkComplete, JobFailed, FileRead}
use tda596labs.Coordinator.Method
use tda596labs.Coordinator.Handlers.{
  empty_reply, get_work, worker_dead, do_setup, work_done, server_tick,
}

pub data Event : Type 0 where
  asks : ℕ → Event
  completes : Bool → WorkComplete → Event
  reports : JobFailed → Event
  joins : String → Event
  ticks : Event

unfoldable pub step : (String → FileRead) → Coordinator → Event → Outcome Coordinator
step fs c (asks w) = get_work fs c w empty_reply >>= λ r. ok r.0
step fs c (completes create_ok complete) = work_done create_ok c complete >>= λ r. ok r.0
step fs c (reports failed) = worker_dead c failed
step fs c (joins ip) = ok (do_setup c ip).0
step fs c ticks = server_tick c

unfoldable pub run : (String → FileRead) → Coordinator → List Event → Outcome Coordinator
run fs c [] = ok c
run fs c (e ∷ es) = step fs c e >>= λ c'. run fs c' es

-- The job ids in the messages are those of jobs: workers echo the ids they were given.
abbrev pub InRange : ℕ → ℕ → Event → Type 0
InRange num_files nreduce (completes create_ok complete) =
    ((complete.work_type ≢ Method.map) ⊎ (complete.job_id < num_files))
    × ((complete.work_type ≢ Method.reduce) ⊎ (complete.job_id < nreduce))
InRange num_files nreduce (reports failed) = failed.job_id < nreduce
InRange num_files nreduce _ = Unit
