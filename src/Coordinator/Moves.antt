-- ===== src/Coordinator/Moves.antt =====
-- Every handler of mr/coordinator.go, and every round of `serverHandler`, makes a move of the board.
use tda596labs.Base.{
  ◌==◌, if◌then◌else◌, Bool-cases, length, get_elem?, set, index_ok, store_ok, Returns, ℕ, zero,
  suc, ◌<◌, String, ◌≡◌, refl, sym, ap, subst, ◌∙◌, inl, inr, Bool, true, false, none, some, List,
  [], ◌∷◌, map, arith,
}
use tda596labs.Coordinator.Method.{reduce}
use tda596labs.Coordinator.Types.{
  WorkChunk, Coordinator, WorkReply, WorkComplete, JobFailed, FileRead,
}
use tda596labs.Coordinator.Jobs.{all_completed}
use tda596labs.Coordinator.Handlers.{
  empty_reply, clear_all_work, worker_dead, work_done, server_tick,
}
use tda596labs.Coordinator.Answers.{
  after_map, after_reduce, next_map, next_reduce, GaveMap, GaveReduce, Answer, finished, first_map,
  again_map, map_waits, first_reduce, again_reduce, reduce_waits,
}
use tda596labs.Coordinator.Tables.{forget_chunk, clear_dead_lem, tick_timers_lem}
use tda596labs.Coordinator.Runs.{completes, InRange}
use tda596labs.Coordinator.Invariant.{Inv}
use tda596labs.Coordinator.Safety.{mark_completed_lem}
use tda596labs.Coordinator.Spec.{
  silent, gave_map, gave_reduce, Lost, Move, idles, sends_home, makes_wait, gives_map, gives_reduce,
  ends_map, ends_reduce, ends_unwritten, loses, stops,
}
use tda596labs.Coordinator.Observed.{
  finished_jobs, view, seen_in, seen_written, length-finished_jobs, all_set-finished_jobs,
  finished_jobs-set_owner, finished_jobs-set_completed,
}
use tda596labs.Coordinator.Method

get_elem?_lt :
    (ks : List WorkChunk) (j : ℕ) (k : WorkChunk) → get_elem? ks j ≡ some k → j < length ks
get_elem?_lt [] j k e = cc
get_elem?_lt (x ∷ ks) zero k e = omega arith
get_elem?_lt (x ∷ ks) (suc j) k e = omega (arith, get_elem?_lt ks j k e)

GaveMap-Move :
    (fs : String → FileRead) (c : Coordinator) (w j : ℕ)
    (finish : Coordinator × WorkReply → Coordinator × WorkReply) (r : Coordinator × WorkReply)
    → c.is_done ≡ false
    → all_completed c.mapper.completed_mappers ≡ false
    → GaveMap fs c w empty_reply finish j r
    → ((x : Coordinator × WorkReply) → (view (finish x).0 ≡ view x.0) × ((finish x).1 ≡ x.1))
    → Move (view c) (seen_in r.1) (view r.0)
GaveMap-Move fs c w j finish r o a g keeps =
    let ks = c.mapper.completed_mappers in
    let given = after_map c empty_reply w j g.name g.bytes g.chunk in
    let moved : Move (view c) (gave_map j) (view c) =
      gives_map j o (all_set-finished_jobs ks ∙ a)
        (rw (length-finished_jobs ks) (get_elem?_lt ks j g.chunk g.in_table)) in
    let kept : view given.0 ≡ view c =
      ap (λ l. record (view c) { maps = l }) (finished_jobs-set_owner ks j w g.chunk g.in_table) in
    subst (λ x. Move (view c) (seen_in x.1) (view x.0)) (sym g.result)
      (subst (λ reply. Move (view c) (seen_in reply) (view (finish given).0)) (sym (keeps given).1)
        (subst (λ b. Move (view c) (gave_map j) b) (sym ((keeps given).0 ∙ kept)) moved))

GaveReduce-Move :
    (fs : String → FileRead) (c : Coordinator) (w j : ℕ)
    (finish : Coordinator × WorkReply → Coordinator × WorkReply) (r : Coordinator × WorkReply)
    → c.is_done ≡ false
    → all_completed c.mapper.completed_mappers ≡ true
    → GaveReduce fs c w empty_reply finish j r
    → ((x : Coordinator × WorkReply) → (view (finish x).0 ≡ view x.0) × ((finish x).1 ≡ x.1))
    → Move (view c) (seen_in r.1) (view r.0)
GaveReduce-Move fs c w j finish r o a g keeps =
    let ks = c.reducer.completed_reducers in
    let given = after_reduce c empty_reply w j g.chunk in
    let moved : Move (view c) (gave_reduce j) (view c) =
      gives_reduce j o (all_set-finished_jobs c.mapper.completed_mappers ∙ a)
        (rw (length-finished_jobs ks) (get_elem?_lt ks j g.chunk g.in_table)) in
    let kept : view given.0 ≡ view c =
      ap (λ l. record (view c) { reduces = l })
        (finished_jobs-set_owner ks j w g.chunk g.in_table) in
    subst (λ x. Move (view c) (seen_in x.1) (view x.0)) (sym g.result)
      (subst (λ reply. Move (view c) (seen_in reply) (view (finish given).0)) (sym (keeps given).1)
        (subst (λ b. Move (view c) (gave_reduce j) b) (sym ((keeps given).0 ∙ kept)) moved))

pub Answer-Move :
    (fs : String → FileRead) (c : Coordinator) (w : ℕ) (r : Coordinator × WorkReply)
    → Answer fs c w empty_reply r
    → Move (view c) (seen_in r.1) (view r.0)
Answer-Move fs c w r (finished o e) =
    subst (λ x. Move (view c) (seen_in x.1) (view x.0)) (sym e) (sends_home o)
Answer-Move fs c w r (first_map o a b g) =
    GaveMap-Move fs c w _ next_map r o a g (λ x. (refl, refl))
Answer-Move fs c w r (again_map o a q j f g) =
    GaveMap-Move fs c w j (λ x. x) r o a g (λ x. (refl, refl))
Answer-Move fs c w r (map_waits o a q f e) =
    subst (λ x. Move (view c) (seen_in x.1) (view x.0)) (sym e) (makes_wait o)
Answer-Move fs c w r (first_reduce o a b g) =
    GaveReduce-Move fs c w _ next_reduce r o a g (λ x. (refl, refl))
Answer-Move fs c w r (again_reduce o a q j f g) =
    GaveReduce-Move fs c w j (λ x. x) r o a g (λ x. (refl, refl))
Answer-Move fs c w r (reduce_waits o a q f e) =
    subst (λ x. Move (view c) (seen_in x.1) (view x.0)) (sym e) (makes_wait o)

finished_jobs-forget :
    (w : ℕ) (ks : List WorkChunk)
    → Lost (finished_jobs ks) (finished_jobs (map (forget_chunk w) ks))
finished_jobs-forget w [] = tt
finished_jobs-forget w (k ∷ ks) = elim (Bool-cases (k.worker_id == w)) [
  | inl e ↦ (rw e (inr refl), finished_jobs-forget w ks)
  | inr e ↦ (rw e (inl refl), finished_jobs-forget w ks)
]

module _ {n m : ℕ} where
  pub work_done-Move :
      (create_ok : Bool) (c : Coordinator) (complete : WorkComplete)
      → Inv n m c
      → InRange n m (completes create_ok complete)
      → Returns (work_done create_ok c complete) (λ r. Move (view c) (seen_written r.1) (view r.0))
  unfolding work_done
  work_done-Move create_ok c complete v h = elim (Bool-cases (complete.work_type == Method.map)) [
    | inl e ↦
        let ks = c.mapper.completed_mappers in
        let b : complete.job_id < length ks = ground (arith, h.0, v.well_formed, v.files_fixed) in
        let (k, g, f) = mark_completed_lem ks complete.job_id b in
        rw (e, f, finished_jobs-set_completed ks complete.job_id k)
          (ends_map complete.job_id (rw (length-finished_jobs ks) b))
    | inr e ↦ elim (Bool-cases (complete.work_type == Method.reduce)) [
      | inl e' ↦
          let ks = c.reducer.completed_reducers in
          let b : complete.job_id < length ks =
            ground (arith, h.1, v.well_formed, v.reduces_fixed) in
          let (k, g, f) = mark_completed_lem ks complete.job_id b in
          let inside : complete.job_id < length (finished_jobs ks) =
            rw (length-finished_jobs ks) b in
          rw (e, e', f, finished_jobs-set_completed ks complete.job_id k) (written create_ok inside)
      | inr e' ↦ rw (e, e') idles
    ]
  ]
    where
      written :
          (created : Bool)
          → complete.job_id < length (view c).reduces
          → Move
              (view c)
              (seen_written
                (if created then some (complete.job_id, complete.output_file) else none))
              (record (view c) { reduces = set (view c).reduces complete.job_id true })
      written true i = ends_reduce complete.job_id complete.output_file i
      written false i = ends_unwritten complete.job_id i

  pub worker_dead-Move :
      (c : Coordinator) (failed : JobFailed)
      → Inv n m c
      → failed.job_id < m
      → Returns (worker_dead c failed) (λ c'. Move (view c) silent (view c'))
  unfolding worker_dead clear_all_work
  worker_dead-Move c failed v h =
      let w = failed.unreachable_worker.worker_id in
      let ks = c.mapper.completed_mappers in
      let rs = c.reducer.completed_reducers in
      let b : failed.job_id < length rs = omega (arith, v.well_formed, v.reduces_fixed) in
      let (k, e, g) = index_ok rs failed.job_id b in
      rw
        (
          clear_dead_lem w ks c.mapper_timeout (omega (arith, v.well_formed)),
          e,
          store_ok rs failed.job_id (record k { worker_id = 0 }) b,
          store_ok c.reducer_timeout failed.job_id 0
              (omega (arith, v.well_formed, v.reduces_fixed)),
          finished_jobs-set_owner rs failed.job_id 0 k g,
        )
        (loses (finished_jobs (map (forget_chunk w) ks)) (finished_jobs-forget w ks))

  pub server_tick-Move :
      (c : Coordinator) → Inv n m c → Returns (server_tick c) (λ c'. Move (view c) silent (view c'))
  unfolding server_tick
  server_tick-Move c v =
      let ks = c.mapper.completed_mappers in
      let rs = c.reducer.completed_reducers in
      let map_ticks = tick_timers_lem c.mapper_timeout ks (omega (arith, v.well_formed)) in
      let reduce_ticks = tick_timers_lem c.reducer_timeout rs (omega (arith, v.well_formed)) in
      elim (Bool-cases (all_completed ks)) [
        | inr e ↦ simp (e, map_ticks) idles
        | inl e ↦ elim (Bool-cases (all_completed rs)) [
          | inl d ↦
              simp (e, d, reduce_ticks)
                (stops (all_set-finished_jobs ks ∙ e) (all_set-finished_jobs rs ∙ d))
          | inr d ↦ simp (e, d, reduce_ticks) idles
        ]
      ]
