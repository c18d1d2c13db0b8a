-- ===== src/Coordinator/Safety.antt =====
-- No handler of mr/coordinator.go breaks the invariant or panics on the messages that workers send.
use tda596labs.Base.{
  ◌==◌, Bool-cases, length, get_elem?, set, length-set, All, All-get_elem?, All-set, ok, index_ok,
  store_ok, Returns, then_returns, ℕ, ◌<◌, String, ◌≡◌, ◌∙◌, ◌≢◌, inl, inr, Bool, true, some, List,
  [], ◌∷◌, arith,
}
use tda596labs.Coordinator.Types.{
  WorkChunk, Coordinator, WorkComplete, JobFailed, FileRead, open_failed,
}
use tda596labs.Coordinator.Method
use tda596labs.Coordinator.Jobs.{all_completed}
use tda596labs.Coordinator.Handlers.{
  make_coordinator, empty_reply, get_work, clear_all_work, worker_dead, do_setup, mark_completed,
  work_done, server_tick,
}
use tda596labs.Coordinator.Dispatch.{get_work-Answer}
use tda596labs.Coordinator.Tables.{
  clear_dead_lem, length-forget, length-forget_timers, tick_timers_lem, length-ticked,
  all_completed-set_owner, all_completed-set_completed, Listed-delete,
}
use tda596labs.Coordinator.Runs.{Event, asks, completes, reports, joins, ticks, step, run, InRange}
use tda596labs.Coordinator.Invariant.{Inv, make_coordinator-Inv, Answer-Inv}

pub mark_completed_lem :
    (ks : List WorkChunk) (j : ℕ)
    → j < length ks
    → (k : WorkChunk) × (get_elem? ks j ≡ some k)
      × (mark_completed ks j ≡ ok (set ks j (record k { completed = true })))
unfolding mark_completed
mark_completed_lem ks j h =
    let (k, e, g) = index_ok ks j h in
    (k, g, rw e (store_ok ks j (record k { completed = true }) h))

module _ {n m : ℕ} where
  pub work_done-Inv :
      (create_ok : Bool) (c : Coordinator) (complete : WorkComplete)
      → Inv n m c
      → InRange n m (completes create_ok complete)
      → Returns (work_done create_ok c complete) (λ r. Inv n m r.0)
  unfolding work_done
  work_done-Inv create_ok c complete v h = elim (Bool-cases (complete.work_type == Method.map)) [
    | inl e ↦
        let b : complete.job_id < n = ground (arith, h.0) in
        let (k, g, f) =
          mark_completed_lem c.mapper.completed_mappers complete.job_id
            (omega (arith, v.well_formed, v.files_fixed)) in
        rw (e, f)
          (record {
            well_formed = omega (
              arith,
              v.well_formed,
              length-set c.mapper.completed_mappers complete.job_id (record k { completed = true }),
            );
            files_fixed = v.files_fixed;
            reduces_fixed = v.reduces_fixed;
            owners_listed =
                All-set _ c.mapper.completed_mappers complete.job_id _ v.owners_listed
                  (All-get_elem? _ c.mapper.completed_mappers complete.job_id v.owners_listed g);
            done_sound = v.done_sound;
          })
    | inr e ↦ elim (Bool-cases (complete.work_type == Method.reduce)) [
      | inl e' ↦
          let b : complete.job_id < m = ground (arith, h.1) in
          let (k, g, f) =
            mark_completed_lem c.reducer.completed_reducers complete.job_id
              (omega (arith, v.well_formed, v.reduces_fixed)) in
          rw (e, e', f)
            (record {
              well_formed = omega (
                arith,
                v.well_formed,
                length-set c.reducer.completed_reducers complete.job_id
                    (record k { completed = true }),
              );
              files_fixed = v.files_fixed;
              reduces_fixed = v.reduces_fixed;
              owners_listed = v.owners_listed;
              done_sound = elim v.done_sound [
                | inl d ↦ inl d
                | inr d ↦
                    inr
                      (all_completed-set_completed c.reducer.completed_reducers complete.job_id k d)
              ];
            })
      | inr e' ↦ rw (e, e') v
    ]
  ]

  pub worker_dead-Inv :
      (c : Coordinator) (failed : JobFailed)
      → Inv n m c
      → failed.job_id < m
      → Returns (worker_dead c failed) (Inv n m)
  unfolding worker_dead clear_all_work
  worker_dead-Inv c failed v h =
      let w = failed.unreachable_worker.worker_id in
      let ks = c.mapper.completed_mappers in
      let (k, e, g) =
        index_ok c.reducer.completed_reducers failed.job_id
          (omega (arith, v.well_formed, v.reduces_fixed)) in
      rw
        (
          clear_dead_lem w ks c.mapper_timeout (omega (arith, v.well_formed)),
          e,
          store_ok c.reducer.completed_reducers failed.job_id (record k { worker_id = 0 })
              (omega (arith, v.well_formed, v.reduces_fixed)),
          store_ok c.reducer_timeout failed.job_id 0
              (omega (arith, v.well_formed, v.reduces_fixed)),
        )
        (record {
          well_formed = omega (
            arith,
            v.well_formed,
            length-forget w ks,
            length-forget_timers w ks c.mapper_timeout,
            length-set c.reducer.completed_reducers failed.job_id (record k { worker_id = 0 }),
            length-set c.reducer_timeout failed.job_id 0,
          );
          files_fixed = v.files_fixed;
          reduces_fixed = v.reduces_fixed;
          owners_listed = Listed-delete w c.mapper.map_worker_ids ks v.owners_listed;
          done_sound = elim v.done_sound [
            | inl d ↦ inl d
            | inr d ↦
                inr (all_completed-set_owner c.reducer.completed_reducers failed.job_id 0 g ∙ d)
          ];
        })

  pub do_setup-Inv : (c : Coordinator) (ip : String) → Inv n m c → Inv n m (do_setup c ip).0
  unfolding do_setup
  do_setup-Inv c ip v = record {
    well_formed = omega (arith, v.well_formed);
    files_fixed = v.files_fixed;
    reduces_fixed = v.reduces_fixed;
    owners_listed = v.owners_listed;
    done_sound = v.done_sound;
  }

  pub server_tick-Inv : (c : Coordinator) → Inv n m c → Returns (server_tick c) (Inv n m)
  unfolding server_tick
  server_tick-Inv c v = elim (Bool-cases (all_completed c.mapper.completed_mappers)) [
    | inr e ↦
        simp
          (
            e,
            tick_timers_lem c.mapper_timeout c.mapper.completed_mappers
                (omega (arith, v.well_formed)),
          )
          (record {
            well_formed =
                omega
                  (arith, v.well_formed, length-ticked c.mapper_timeout c.mapper.completed_mappers);
            files_fixed = v.files_fixed;
            reduces_fixed = v.reduces_fixed;
            owners_listed = v.owners_listed;
            done_sound = v.done_sound;
          })
    | inl e ↦ elim (Bool-cases (all_completed c.reducer.completed_reducers)) [
      | inl d ↦
          simp
            (
              e,
              d,
              tick_timers_lem c.reducer_timeout c.reducer.completed_reducers
                  (omega (arith, v.well_formed)),
            )
            (record {
              well_formed = omega (
                arith,
                v.well_formed,
                length-ticked c.reducer_timeout c.reducer.completed_reducers,
              );
              files_fixed = v.files_fixed;
              reduces_fixed = v.reduces_fixed;
              owners_listed = v.owners_listed;
              done_sound = inr d;
            })
      | inr d ↦
          simp
            (
              e,
              d,
              tick_timers_lem c.reducer_timeout c.reducer.completed_reducers
                  (omega (arith, v.well_formed)),
            )
            (record {
              well_formed = omega (
                arith,
                v.well_formed,
                length-ticked c.reducer_timeout c.reducer.completed_reducers,
              );
              files_fixed = v.files_fixed;
              reduces_fixed = v.reduces_fixed;
              owners_listed = v.owners_listed;
              done_sound = v.done_sound;
            })
    ]
  ]

module _ (fs : String → FileRead) (readable : (name : String) → fs name ≢ open_failed)
    {n m : ℕ} where
  pub step-Inv :
      (c : Coordinator) (e : Event) → Inv n m c → InRange n m e → Returns (step fs c e) (Inv n m)
  unfolding step
  step-Inv c (asks w) v h =
      then_returns (Inv n m) (get_work fs c w empty_reply) (λ r. ok r.0)
        (get_work-Answer fs readable c w empty_reply v.well_formed)
        (λ r a. Answer-Inv fs readable c w empty_reply r v a)
  step-Inv c (completes create_ok complete) v h =
      then_returns (Inv n m) (work_done create_ok c complete) (λ r. ok r.0)
        (work_done-Inv create_ok c complete v h) (λ r a. a)
  step-Inv c (reports failed) v h = worker_dead-Inv c failed v h
  step-Inv c (joins ip) v h = do_setup-Inv c ip v
  step-Inv c ticks v h = server_tick-Inv c v

  run_from-Inv :
      (c : Coordinator) (es : List Event)
      → Inv n m c
      → All (InRange n m) es
      → Returns (run fs c es) (Inv n m)
  unfolding run
  run_from-Inv c [] v h = v
  run_from-Inv c (e ∷ es) v h =
      then_returns (Inv n m) (step fs c e) (λ c'. run fs c' es) (step-Inv c e v h.0)
        (λ c' v'. run_from-Inv c' es v' h.1)

-- If every input file can be opened, no interleaving of RPCs and rounds of `serverHandler` whose
-- messages carry job ids of jobs makes a coordinator made for `files` and `nreduce` panic or exit,
-- and the state that it ends in satisfies the invariant: table lengths and cursors in bounds,
-- owners of map jobs listed as locations, and `IsDone` only with every reduce job completed.
pub run-Inv :
    (fs : String → FileRead)
    → ((name : String) → fs name ≢ open_failed)
    → (ip : String) (files : List String) (nreduce : ℕ) (es : List Event)
    → All (InRange (length files) nreduce) es
    → Returns (run fs (make_coordinator ip files nreduce) es) (Inv (length files) nreduce)
run-Inv fs readable ip files nreduce es h =
    run_from-Inv fs readable _ es (make_coordinator-Inv ip files nreduce) h
