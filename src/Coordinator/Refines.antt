-- ===== src/Coordinator/Refines.antt =====
-- The runs of mr/coordinator.go are schedules of the board.
use tda596labs.Base.{
  length, replicate, All, ok, ◌>>=◌, Returns, then_returns, both_return, returns_map, ℕ, zero, suc,
  String, ◌≡◌, refl, ap, ◌≢◌, true, false, List, [], ◌∷◌,
}
use tda596labs.Coordinator.Types.{Coordinator, FileRead, open_failed}
use tda596labs.Coordinator.Handlers.{
  make_coordinator, empty_reply, get_work, worker_dead, do_setup, work_done, server_tick,
}
use tda596labs.Coordinator.Dispatch.{get_work-Answer}
use tda596labs.Coordinator.Runs.{Event, asks, completes, reports, joins, ticks, InRange}
use tda596labs.Coordinator.Invariant.{Inv, make_coordinator-Inv, Answer-Inv}
use tda596labs.Coordinator.Safety.{work_done-Inv, worker_dead-Inv, do_setup-Inv, server_tick-Inv}
use tda596labs.Coordinator.Spec.{
  Seen, silent, Move, idles, Schedule, no_moves, then_move, fresh_board, IsHomeward, Schedule-over,
}
use tda596labs.Coordinator.Observed.{
  finished_jobs, view, seen_in, seen_written, observe, observe_all,
}
use tda596labs.Coordinator.Moves.{Answer-Move, work_done-Move, worker_dead-Move, server_tick-Move}

abbrev Moved : ℕ → ℕ → Coordinator → Coordinator × Seen → Type 0
Moved n m c r = Inv n m r.0 × Move (view c) r.1 (view r.0)

module _ (fs : String → FileRead) (readable : (name : String) → fs name ≢ open_failed)
    {n m : ℕ} where
  observe-Moved :
      (c : Coordinator) (e : Event)
      → Inv n m c
      → InRange n m e
      → Returns (observe fs c e) (Moved n m c)
  unfolding observe
  observe-Moved c (asks w) v h =
      then_returns (Moved n m c) (get_work fs c w empty_reply) (λ r. ok (r.0, seen_in r.1))
        (get_work-Answer fs readable c w empty_reply v.well_formed)
        (λ r a. (Answer-Inv fs readable c w empty_reply r v a, Answer-Move fs c w r a))
  observe-Moved c (completes create_ok complete) v h =
      then_returns (Moved n m c) (work_done create_ok c complete) (λ r. ok (r.0, seen_written r.1))
        (both_return _ _ (work_done create_ok c complete) (work_done-Inv create_ok c complete v h)
          (work_done-Move create_ok c complete v h))
        (λ r a. a)
  observe-Moved c (reports failed) v h =
      then_returns (Moved n m c) (worker_dead c failed) (λ c'. ok (c', silent))
        (both_return _ _ (worker_dead c failed) (worker_dead-Inv c failed v h)
          (worker_dead-Move c failed v h))
        (λ r a. a)
  observe-Moved c (joins ip) v h = (do_setup-Inv c ip v, unfold do_setup in idles)
  observe-Moved c ticks v h =
      then_returns (Moved n m c) (server_tick c) (λ c'. ok (c', silent))
        (both_return _ _ (server_tick c) (server_tick-Inv c v) (server_tick-Move c v)) (λ r a. a)

  pub observe_all-Schedule :
      (c : Coordinator) (es : List Event)
      → Inv n m c
      → All (InRange n m) es
      → Returns (observe_all fs c es) (λ r. Schedule (view c) r.1 (view r.0))
  unfolding observe_all
  observe_all-Schedule c [] v h = no_moves (view c)
  observe_all-Schedule c (e ∷ es) v h =
      then_returns (λ r. Schedule (view c) r.1 (view r.0)) (observe fs c e)
        (λ r. observe_all fs r.0 es >>= λ s. ok (s.0, r.1 ∷ s.1)) (observe-Moved c e v h.0)
        (λ r a.
          then_returns (λ q. Schedule (view c) q.1 (view q.0)) (observe_all fs r.0 es)
            (λ s. ok (s.0, r.1 ∷ s.1)) (observe_all-Schedule r.0 es a.0 h.1)
            (λ s rest. then_move (view c) (view r.0) (view s.0) r.1 s.1 a.1 rest))

-- If every input file can be opened, any interleaving of RPC handlers and rounds of `serverHandler`
-- whose messages carry job ids of jobs runs to its end without a panic, and what is seen of it is a
-- schedule of the abstract board, from the board with nothing finished to the one that the
-- coordinator keeps then.
pub coordinator_refines :
    (fs : String → FileRead)
    → ((name : String) → fs name ≢ open_failed)
    → (ip : String) (files : List String) (nreduce : ℕ) (es : List Event)
    → All (InRange (length files) nreduce) es
    → Returns
        (observe_all fs (make_coordinator ip files nreduce) es)
        (λ r. Schedule (fresh_board (length files) nreduce) r.1 (view r.0))
unfolding make_coordinator
coordinator_refines fs readable ip files nreduce es h =
    rw (← finished_jobs-fresh (length files), ← finished_jobs-fresh nreduce)
      (observe_all-Schedule fs readable (make_coordinator ip files nreduce) es
        (make_coordinator-Inv ip files nreduce) h)
  where
    finished_jobs-fresh :
        (n : ℕ)
        → finished_jobs (replicate n (record { worker_id = 0; completed = false }))
          ≡ replicate n false
    finished_jobs-fresh zero = refl
    finished_jobs-fresh (suc n) = ap (λ l. false ∷ l) (finished_jobs-fresh n)

-- Let the coordinator satisfy the invariant and be done. Then no interleaving of RPC handlers and
-- rounds of `serverHandler` on messages in range gives a job or tells a worker to wait, and the
-- coordinator stays done.
pub done_gives_nothing :
    (fs : String → FileRead)
    → ((name : String) → fs name ≢ open_failed)
    → (n m : ℕ) (c : Coordinator) (es : List Event) → Inv n m c
    → c.is_done ≡ true
    → All (InRange n m) es
    → Returns (observe_all fs c es) (λ r. (r.0.is_done ≡ true) × All IsHomeward r.1)
done_gives_nothing fs readable n m c es v d h =
    returns_map _ (observe_all fs c es) (observe_all-Schedule fs readable c es v h)
      (λ r s. Schedule-over (view c) (view r.0) r.1 s d)
