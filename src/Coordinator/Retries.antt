-- ===== src/Coordinator/Retries.antt =====
-- Which jobs `retryMapper` of mr/coordinator.go hands out again, and when.
use tda596labs.Base.{
  Bool-cases, get_elem?, replicate, ok, Returns, both_return, returns_map, ℕ, zero, suc, ◌+◌, ◌≤◌,
  ◌<◌, String, ◌≡◌, refl, sym, ap, subst, ◌∙◌, ◌≢◌, ◌⊎◌, inl, inr, true, false, some, List, [], ◌∷◌,
  arith,
}
use tda596labs.Coordinator.Types.{
  WorkChunk, Coordinator, WorkReply, JobFailed, FileRead, open_failed,
}
use tda596labs.Coordinator.Jobs.{all_completed, needs_retry, find_retry, in_progress}
use tda596labs.Coordinator.Handlers.{get_work, worker_dead, server_tick}
use tda596labs.Coordinator.Bounds.{IsWellFormed}
use tda596labs.Coordinator.Answers.{
  Answer, finished, first_map, again_map, map_waits, first_reduce, again_reduce, reduce_waits,
}
use tda596labs.Coordinator.Dispatch.{get_work-Answer}
use tda596labs.Coordinator.Tables.{
  tick_timer, ticked, tick_timers_lem, length-ticked, not_all_completed,
}
use tda596labs.Coordinator.Runs.{ticks, step, run}
use tda596labs.Coordinator.Invariant.{Inv}
use tda596labs.Coordinator.Safety.{worker_dead-Inv}
use tda596labs.Coordinator.Recovery.{
  get_elem?-forget, get_elem?-forget_timers, Buried, worker_dead_buries,
}
use tda596labs.Coordinator.Method

-- By the tables, job `i` has timed out, or has neither an owner nor a running timer.
abbrev pub Idle : List ℕ → List WorkChunk → ℕ → Type 0
Idle ts ks i =
    (t : ℕ) × (k : WorkChunk) × (get_elem? ts i ≡ some t)
    × (get_elem? ks i ≡ some k)
    × ((10 < t) ⊎ ((k.worker_id ≡ 0) × (t ≡ 0)))

needs_retry_lem :
    (t : ℕ) (k : WorkChunk) → needs_retry t k ≡ true → (10 < t) ⊎ ((k.worker_id ≡ 0) × (t ≡ 0))
unfolding needs_retry
needs_retry_lem t k h = ground (arith, h)

-- If job `j` needs a retry, the scan finds job `j`, or one before it that is idle.
pub find_retry-first :
    (base : ℕ) (ts : List ℕ) (ks : List WorkChunk) (j : ℕ) {t : ℕ} {k : WorkChunk}
    → get_elem? ts j ≡ some t
    → get_elem? ks j ≡ some k
    → needs_retry t k ≡ true
    → (i : ℕ) × (find_retry base ts ks ≡ ok (some (base + i))) × (i ≤ j) × Idle ts ks i
unfolding find_retry
find_retry-first base [] ks j e f h = absurd (cc e)
find_retry-first base (x ∷ ts) [] j e f h = absurd (cc f)
find_retry-first base (x ∷ ts) (y ∷ ks) zero e f h =
    let g : needs_retry x y ≡ true = ground (arith, h) in
    (0, rw g (ground arith), omega arith, (x, y, refl, refl, needs_retry_lem x y g))
find_retry-first base (x ∷ ts) (y ∷ ks) (suc j) e f h = elim (Bool-cases (needs_retry x y)) [
  | inl g ↦ (0, rw g (ground arith), omega arith, (x, y, refl, refl, needs_retry_lem x y g))
  | inr g ↦
      let (i, n, b, idle) = find_retry-first (base + 1) ts ks j e f h in
      (suc i, rw g (n ∙ ap (λ m. ok (some m)) (omega arith)), omega arith, idle)
]

-- The map jobs are all handed out, some is not completed, and the run is not over.
pub record AllOut (c : Coordinator) : Type 0 where
  pub running : c.is_done ≡ false
  pub unfinished : all_completed c.mapper.completed_mappers ≡ false
  pub at_end : c.mapper.current_job ≡ c.mapper.num_files

-- The reply is a map job.
abbrev pub GivesMap : Coordinator × WorkReply → Type 0
GivesMap r = r.1.work_type ≡ Method.map

-- The reply is map job `j`, or an idle one before it.
abbrev pub GivesRetry : Coordinator → ℕ → Coordinator × WorkReply → Type 0
GivesRetry c j r =
    (r.1.work_type ≡ Method.map)
    × (r.1.job_id ≤ j)
    × Idle c.mapper_timeout c.mapper.completed_mappers r.1.job_id

module _ (fs : String → FileRead) (readable : (name : String) → fs name ≢ open_failed) where
  retry-GivesRetry :
      (c : Coordinator) (w : ℕ) (reply : WorkReply) (j : ℕ) {t : ℕ} {k : WorkChunk}
      → IsWellFormed c
      → AllOut c
      → get_elem? c.mapper_timeout j ≡ some t
      → get_elem? c.mapper.completed_mappers j ≡ some k
      → needs_retry t k ≡ true
      → Returns (get_work fs c w reply) (GivesRetry c j)
  retry-GivesRetry c w reply j v a x y h =
      returns_map (GivesRetry c j) (get_work fs c w reply) (get_work-Answer fs readable c w reply v)
        go
    where
      found :
          (i : ℕ) × (find_retry 0 c.mapper_timeout c.mapper.completed_mappers ≡ ok (some i))
          × (i ≤ j)
          × Idle c.mapper_timeout c.mapper.completed_mappers i
      found =
          let (i, n, b, idle) =
            find_retry-first 0 c.mapper_timeout c.mapper.completed_mappers j x y h in
          (i, n ∙ ap (λ m. ok (some m)) (omega arith), b, idle)

      go : (r : Coordinator × WorkReply) → Answer fs c w reply r → GivesRetry c j r
      go r (finished d e) = absurd (cc (sym a.running ∙ d))
      go r (first_map d f b g) = absurd (omega (arith, a.at_end))
      go r (again_map d f q i s g) =
          let (i', n, b, idle) = found in
          let same_job : i ≡ i' = ground (arith, sym s ∙ n) in
          rw g.result (
            refl,
            omega arith,
            subst (Idle c.mapper_timeout c.mapper.completed_mappers) (sym same_job) idle,
          )
      go r (map_waits d f q s e) = absurd (cc (sym s ∙ found.1))
      go r (first_reduce d f b g) = absurd (cc (sym a.unfinished ∙ f))
      go r (again_reduce d f q i s g) = absurd (cc (sym a.unfinished ∙ f))
      go r (reduce_waits d f q s e) = absurd (cc (sym a.unfinished ∙ f))

get_elem?-ticked :
    (ts : List ℕ) (ks : List WorkChunk) (j : ℕ) {t : ℕ} {k : WorkChunk}
    → get_elem? ts j ≡ some t
    → get_elem? ks j ≡ some k
    → get_elem? (ticked ts ks) j ≡ some (tick_timer t k)
get_elem?-ticked [] ks j e f = cc
get_elem?-ticked (x ∷ ts) [] j e f = cc
get_elem?-ticked (x ∷ ts) (y ∷ ks) zero e f = ground arith
get_elem?-ticked (x ∷ ts) (y ∷ ks) (suc j) e f = get_elem?-ticked ts ks j e f

-- One round while a map job is not completed only moves the map timers.
server_tick_lem :
    (c : Coordinator)
    → IsWellFormed c
    → all_completed c.mapper.completed_mappers ≡ false
    → server_tick c
      ≡ ok (record c { mapper_timeout = ticked c.mapper_timeout c.mapper.completed_mappers })
unfolding server_tick
server_tick_lem c v u =
    simp (u, tick_timers_lem c.mapper_timeout c.mapper.completed_mappers (omega (arith, v)))

-- Job `j` is with worker `k.worker_id` and its timer stands at `t`.
pub record Stalled (c : Coordinator) (j t : ℕ) (k : WorkChunk) : Type 0 where
  pub formed : IsWellFormed c
  pub out : AllOut c
  pub in_table : get_elem? c.mapper.completed_mappers j ≡ some k
  pub timer : get_elem? c.mapper_timeout j ≡ some t
  pub started : 0 < t
  pub owned : 0 < k.worker_id
  pub pending : k.completed ≡ false

module _ (fs : String → FileRead) (readable : (name : String) → fs name ≢ open_failed) where
  Stalled-ticks :
      (rounds : ℕ) (c : Coordinator) (j t : ℕ) (k : WorkChunk)
      → Stalled c j t k
      → Returns (run fs c (replicate rounds ticks)) (λ c'. Stalled c' j (t + rounds) k)
  unfolding run step
  Stalled-ticks zero c j t k s = let e : t ≡ t + 0 = omega arith in rw (← e) s
  Stalled-ticks (suc rounds) c j t k s =
      let next : Stalled
          (record c { mapper_timeout = ticked c.mapper_timeout c.mapper.completed_mappers }) j
          (suc t) k =
        record {
          formed =
              omega (arith, s.formed, length-ticked c.mapper_timeout c.mapper.completed_mappers);
          out = record {
            running = s.out.running;
            unfinished = s.out.unfinished;
            at_end = s.out.at_end;
          };
          in_table = s.in_table;
          timer =
              get_elem?-ticked c.mapper_timeout c.mapper.completed_mappers j s.timer s.in_table
              ∙ unfold in_progress in ground (arith, s.started, s.owned, s.pending);
          started = omega (arith, s.started);
          owned = s.owned;
          pending = s.pending;
        } in
      let e : suc t + rounds ≡ t + suc rounds = omega arith in
      rw (server_tick_lem c s.formed s.out.unfinished, ← e)
        (Stalled-ticks rounds _ j (suc t) k next)

  -- A map job that stays with a silent worker is handed out again: with every map job handed out,
  -- some not completed, and job `j` in the hands of a worker with its timer running, after ten
  -- rounds of `serverHandler` with nothing else the next call of `get_work`, by any worker,
  -- returns map job `j`, or a map job before it that has then timed out or has neither an owner
  -- nor a running timer.
  pub silent_job_retried :
      (c : Coordinator) (j t : ℕ) (k : WorkChunk) (w : ℕ) (reply : WorkReply)
      → Stalled c j t k
      → Returns
          (run fs c (replicate 10 ticks))
          (λ c'. Returns (get_work fs c' w reply) (GivesRetry c' j))
  silent_job_retried c j t k w reply s =
      returns_map _ (run fs c (replicate 10 ticks)) (Stalled-ticks 10 c j t k s) (λ c' s'.
        retry-GivesRetry fs readable c' w reply j s'.formed s'.out s'.timer s'.in_table
          (unfold needs_retry in ground (arith, s.started)))

  -- The work of a worker that was reported dead is handed out again: if it owned map job `j` and
  -- all map jobs were handed out in a run that is not over, the next call of `get_work` after the
  -- report returns map job `j`, or one before it that is idle.
  pub dead_worker_retried :
      {n m : ℕ} (c : Coordinator) (failed : JobFailed) (j t : ℕ) (k : WorkChunk) (w : ℕ)
      (reply : WorkReply)
      → Inv n m c
      → failed.job_id < m
      → c.is_done ≡ false
      → c.mapper.current_job ≡ c.mapper.num_files
      → get_elem? c.mapper.completed_mappers j ≡ some k
      → get_elem? c.mapper_timeout j ≡ some t
      → k.worker_id ≡ failed.unreachable_worker.worker_id
      → Returns (worker_dead c failed) (λ c'. Returns (get_work fs c' w reply) (GivesRetry c' j))
  dead_worker_retried {n} {m} c failed j t k w reply v h d a g f o =
      returns_map _ (worker_dead c failed)
        (both_return (Inv n m) (Buried c failed) (worker_dead c failed)
          (worker_dead-Inv c failed v h) (worker_dead_buries c failed v h))
        (λ c' p.
          let dead = failed.unreachable_worker.worker_id in
          let chunk : get_elem? c'.mapper.completed_mappers j
              ≡ some (record { worker_id = 0; completed = false }) =
            rw p.1.map_jobs (get_elem?-forget dead c.mapper.completed_mappers j g ∙ ground arith) in
          let timer : get_elem? c'.mapper_timeout j ≡ some 0 = rw p.1.map_timers (
            get_elem?-forget_timers dead c.mapper.completed_mappers c.mapper_timeout j g f
            ∙ ground arith) in
          retry-GivesRetry fs readable c' w reply j p.0.well_formed
            (record {
              running = p.1.done_kept ∙ d;
              unfinished = not_all_completed c'.mapper.completed_mappers j chunk refl;
              at_end = p.1.cursor_kept ∙ a ∙ sym p.1.files_kept;
            })
            timer chunk (unfold needs_retry in refl))
