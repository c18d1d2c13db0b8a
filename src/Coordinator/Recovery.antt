-- ===== src/Coordinator/Recovery.antt =====
-- What happens to the jobs of a worker that is reported dead or that stays silent:
-- `WorkerDead`, the timers of `serverHandler` and the retries of `GetWork` in mr/coordinator.go.
use tda596labs.Base.{
  ◌==◌, if◌then◌else◌, length, get_elem?, set, get_elem?-set_self, ◌>>=◌, index_ok, store_ok,
  Returns, then_returns, both_return, ℕ, zero, suc, ◌<◌, ◌≡◌, refl, ◌∙◌, Bool, true, false, none,
  some, List, [], ◌∷◌, map, arith,
}
use tda596labs.Base.IntMap.{lookup, lookup-delete}
use tda596labs.Coordinator.Types.{WorkChunk, Coordinator, WorkComplete, JobFailed}
use tda596labs.Coordinator.Handlers.{clear_all_work, worker_dead, work_done}
use tda596labs.Coordinator.Tables.{forget_chunk, forget_timers, clear_dead_lem}
use tda596labs.Coordinator.Invariant.{Inv}
use tda596labs.Coordinator.Safety.{mark_completed_lem, worker_dead-Inv}
use tda596labs.Coordinator.Method

pub get_elem?-forget :
    (w : ℕ) (ks : List WorkChunk) (i : ℕ) {k : WorkChunk}
    → get_elem? ks i ≡ some k
    → get_elem? (map (forget_chunk w) ks) i ≡ some (forget_chunk w k)
get_elem?-forget w [] i e = cc
get_elem?-forget w (x ∷ ks) zero e = ground arith
get_elem?-forget w (x ∷ ks) (suc i) e = get_elem?-forget w ks i e

pub get_elem?-forget_timers :
    (w : ℕ) (ks : List WorkChunk) (ts : List ℕ) (i : ℕ) {k : WorkChunk} {t : ℕ}
    → get_elem? ks i ≡ some k
    → get_elem? ts i ≡ some t
    → get_elem? (forget_timers w ks ts) i ≡ some (if k.worker_id == w then 0 else t)
get_elem?-forget_timers w [] ts i e f = cc
get_elem?-forget_timers w (x ∷ ks) [] i e f = cc
get_elem?-forget_timers w (x ∷ ks) (y ∷ ts) zero e f = ground arith
get_elem?-forget_timers w (x ∷ ks) (y ∷ ts) (suc i) e f = get_elem?-forget_timers w ks ts i e f

pub record Buried (c : Coordinator) (failed : JobFailed) (c' : Coordinator) : Type 0 where
  pub map_jobs :
      c'.mapper.completed_mappers
      ≡ map (forget_chunk failed.unreachable_worker.worker_id) c.mapper.completed_mappers
  pub map_timers :
      c'.mapper_timeout
      ≡ forget_timers failed.unreachable_worker.worker_id c.mapper.completed_mappers
          c.mapper_timeout
  pub no_location : lookup failed.unreachable_worker.worker_id c'.mapper.map_worker_ids ≡ none
  pub no_worker : lookup failed.unreachable_worker.worker_id c'.workers ≡ none
  pub others_located :
      (v : ℕ)
      → (v == failed.unreachable_worker.worker_id) ≡ false
      → lookup v c'.mapper.map_worker_ids ≡ lookup v c.mapper.map_worker_ids
  pub reduce_timers : c'.reducer_timeout ≡ set c.reducer_timeout failed.job_id 0
  pub reduce_jobs :
      (k : WorkChunk) × (get_elem? c.reducer.completed_reducers failed.job_id ≡ some k)
      × (c'.reducer.completed_reducers
          ≡ set c.reducer.completed_reducers failed.job_id (record k { worker_id = 0 }))
  pub reduce_cursor_kept : c'.reducer.current_job ≡ c.reducer.current_job
  pub cursor_kept : c'.mapper.current_job ≡ c.mapper.current_job
  pub done_kept : c'.is_done ≡ c.is_done
  pub files_kept : c'.mapper.num_files ≡ c.mapper.num_files

module _ {n m : ℕ} where
  pub worker_dead_buries :
      (c : Coordinator) (failed : JobFailed)
      → Inv n m c
      → failed.job_id < m
      → Returns (worker_dead c failed) (Buried c failed)
  unfolding worker_dead clear_all_work
  worker_dead_buries c failed v h =
      let w = failed.unreachable_worker.worker_id in
      let ks = c.mapper.completed_mappers in
      let b : failed.job_id < length c.reducer.completed_reducers =
        omega (arith, v.well_formed, v.reduces_fixed) in
      let b' : failed.job_id < length c.reducer_timeout =
        omega (arith, v.well_formed, v.reduces_fixed) in
      let (k, e, g) = index_ok c.reducer.completed_reducers failed.job_id b in
      rw
        (
          clear_dead_lem w ks c.mapper_timeout (omega (arith, v.well_formed)),
          e,
          store_ok c.reducer.completed_reducers failed.job_id (record k { worker_id = 0 }) b,
          store_ok c.reducer_timeout failed.job_id 0 b',
        )
        (record {
          map_jobs = refl;
          map_timers = refl;
          no_location = ground (arith, lookup-delete w w c.mapper.map_worker_ids);
          no_worker = ground (arith, lookup-delete w w c.workers);
          others_located = λ v n. ground (arith, n, lookup-delete w v c.mapper.map_worker_ids);
          reduce_timers = refl;
          reduce_jobs = (k, g, refl);
          reduce_cursor_kept = refl;
          cursor_kept = refl;
          done_kept = refl;
          files_kept = refl;
        })

  -- A late `WorkDone` of a map job from a worker that was reported dead: the job counts as
  -- completed, it has no owner, and reducers are not sent to the worker that holds its output.
  pub late_work_done :
      (c : Coordinator) (failed : JobFailed) (complete : WorkComplete) (create_ok : Bool)
      (k : WorkChunk)
      → Inv n m c
      → failed.job_id < m
      → complete.work_type ≡ Method.map
      → complete.worker_id ≡ failed.unreachable_worker.worker_id
      → complete.job_id < n
      → get_elem? c.mapper.completed_mappers complete.job_id ≡ some k
      → k.worker_id ≡ complete.worker_id
      → Returns (worker_dead c failed >>= λ c'. work_done create_ok c' complete) (λ r.
        (get_elem? r.0.mapper.completed_mappers complete.job_id
          ≡ some (record { worker_id = 0; completed = true }))
        × (lookup complete.worker_id r.0.mapper.map_worker_ids ≡ none))
  unfolding work_done
  late_work_done c failed complete create_ok k v h t e b g o =
      then_returns _ (worker_dead c failed) (λ c'. work_done create_ok c' complete)
        (both_return (Inv n m) (Buried c failed) (worker_dead c failed)
          (worker_dead-Inv c failed v h) (worker_dead_buries c failed v h))
        (λ c' p.
          let (z, g', f) =
            mark_completed_lem c'.mapper.completed_mappers complete.job_id
              (omega (arith, p.0.well_formed, p.0.files_fixed)) in
          let same : get_elem? c'.mapper.completed_mappers complete.job_id
              ≡ some (forget_chunk failed.unreachable_worker.worker_id k) =
            rw p.1.map_jobs (
              get_elem?-forget failed.unreachable_worker.worker_id c.mapper.completed_mappers
                complete.job_id g) in
          rw (t, f)
            (
              get_elem?-set_self c'.mapper.completed_mappers complete.job_id
                    (record z { completed = true })
                    (omega (arith, p.0.well_formed, p.0.files_fixed))
                  ∙ ground (arith, same, g'),
              rw e p.1.no_location,
            ))
