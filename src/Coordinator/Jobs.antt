-- ===== src/Coordinator/Jobs.antt =====
-- The loops over the job tables of mr/coordinator.go: `isDone`, the scans of `retryMapper` and
-- `retryReducer`, `clearMapDeadWorker`, `updateMapper` and `updateReducer`.
use tda596labs.Base.{
  ℕ, ◌+◌, Bool, true, false, not, ◌&&◌, ◌||◌, List, [], ◌∷◌, Option, none, some, ltb, ◌==◌,
  if◌then◌else◌, Outcome, ok, panic, ◌>>=◌,
}
use tda596labs.Coordinator.Types.{WorkChunk, timeout}

-- Both trackers' `isDone` run this loop over their own table.
unfoldable pub all_completed : List WorkChunk → Bool
all_completed [] = true
all_completed (chunk ∷ rest) =
    let more = all_completed rest in if not chunk.completed then false else more

-- The test of the retry loops: timed out, or cleared.
unfoldable pub needs_retry : ℕ → WorkChunk → Bool
needs_retry timer chunk = ltb timeout timer || (chunk.worker_id == 0 && timer == 0)

-- `for jobId := range timeouts`, up to the first job to hand out again.
unfoldable pub find_retry : ℕ → List ℕ → List WorkChunk → Outcome (Option ℕ)
find_retry job_id [] chunks = ok none
find_retry job_id (timer ∷ timers) [] = panic
find_retry job_id (timer ∷ timers) (chunk ∷ chunks) =
    let rest = find_retry (job_id + 1) timers chunks in
    if needs_retry timer chunk then ok (some job_id) else rest

abbrev cleared_chunk : WorkChunk
cleared_chunk = record { worker_id = 0; completed = false }

-- `clearMapDeadWorker`: the worker's jobs lose their owner, their result and their timer.
unfoldable pub clear_dead : ℕ → List WorkChunk → List ℕ → Outcome (List WorkChunk × List ℕ)
clear_dead worker_id [] timers = ok ([], timers)
clear_dead worker_id (chunk ∷ chunks) [] =
    let rest = clear_dead worker_id chunks [] in
    if chunk.worker_id == worker_id then panic else (rest >>= λ r. ok (chunk ∷ r.0, r.1))
clear_dead worker_id (chunk ∷ chunks) (timer ∷ timers) = clear_dead worker_id chunks timers >>= λ r.
    ok (
      if chunk.worker_id == worker_id
      then (cleared_chunk ∷ r.0, 0 ∷ r.1)
      else (chunk ∷ r.0, timer ∷ r.1))

unfoldable pub in_progress : WorkChunk → Bool
in_progress chunk = ltb 0 chunk.worker_id && not chunk.completed

-- `updateMapper` and `updateReducer`: each timer that runs advances by one.
unfoldable pub tick_timers : List ℕ → List WorkChunk → Outcome (List ℕ)
tick_timers [] chunks = ok []
tick_timers (timer ∷ timers) [] = panic
tick_timers (timer ∷ timers) (chunk ∷ chunks) = tick_timers timers chunks >>= λ rest.
    ok ((if ltb 0 timer && in_progress chunk then timer + 1 else timer) ∷ rest)
