-- ===== src/Examples/Boards.antt =====
-- The board of Lab2_MapReduce/src/mr/coordinator.go in concrete runs.
use tda596labs.Base.{All, Returns, String, ◌≡◌, refl, ◌≢◌, inl, inr, true, List, [], ◌∷◌, arith}
use tda596labs.Base.IntMap.{lookup}
use tda596labs.Coordinator.Jobs.{all_completed}
use tda596labs.Coordinator.Types.{Coordinator, WorkComplete, FileRead, open_failed, content}
use tda596labs.Coordinator.Handlers.{make_coordinator}
use tda596labs.Coordinator.Runs.{Event, asks, completes, joins, ticks}
use tda596labs.Coordinator.Invariant.{Inv}
use tda596labs.Coordinator.Spec.{Schedule, fresh_board, IsHomeward}
use tda596labs.Coordinator.Observed.{view, observe_all}
use tda596labs.Coordinator.Refines.{coordinator_refines, done_gives_nothing}

abbrev one_file : List String
one_file = "pg-one.txt" ∷ []

abbrev one_byte : String → FileRead
one_byte name = content (65 ∷ [])

one_byte_readable : (name : String) → one_byte name ≢ open_failed
one_byte_readable name e = cc

abbrev mapped : WorkComplete
mapped = record { work_type = 1; job_id = 0; output_file = []; worker_id = 1 }

abbrev reduced : WorkComplete
reduced = record { work_type = 2; job_id = 0; output_file = 65 ∷ []; worker_id = 1 }

-- A worker does the map job and the reduce job, and is sent home.
abbrev shift : List Event
shift =
    joins "10.0.0.2"
    ∷ asks 1
    ∷ completes true mapped
    ∷ asks 1
    ∷ completes true reduced
    ∷ ticks
    ∷ asks 1
    ∷ []

coordinator_refines_example :
    Returns
      (observe_all one_byte (make_coordinator "10.0.0.1" one_file 1) shift)
      (λ r. Schedule (fresh_board 1 1) r.1 (view r.0))
coordinator_refines_example =
    coordinator_refines one_byte one_byte_readable "10.0.0.1" one_file 1 shift (
      tt,
      (
        tt,
        (
          (inr (omega arith), inl (λ e. absurd (omega arith))),
          (tt, ((inl (λ e. absurd (omega arith)), inr (omega arith)), (tt, (tt, tt)))),
        ),
      ),
    )

-- Both jobs are finished.
abbrev closed : Coordinator
closed = record {
  ip_address = "10.0.0.1";
  is_done = true;
  nreduce = 1;
  mapper_timeout = 1 ∷ [];
  reducer_timeout = 1 ∷ [];
  workers = (1, "10.0.0.2") ∷ [];
  next_worker_id = 2;
  mapper = record {
    files = one_file;
    num_files = 1;
    current_job = 1;
    completed_mappers = record { worker_id = 1; completed = true } ∷ [];
    map_worker_ids = (1, true) ∷ [];
  };
  reducer = record {
    current_job = 1;
    completed_reducers = record { worker_id = 1; completed = true } ∷ [];
    reduce_worker_ids = (1, true) ∷ [];
  };
}

closed-Inv : Inv 1 1 closed
unfolding lookup all_completed
closed-Inv = record {
  well_formed = record {
    files_counted = refl;
    mappers_counted = refl;
    map_timers_counted = refl;
    map_cursor = omega arith;
    reducers_counted = refl;
    reduce_timers_counted = refl;
    reduce_cursor = omega arith;
    ids_positive = omega arith;
  };
  files_fixed = refl;
  reduces_fixed = refl;
  owners_listed = (inr refl, tt);
  done_sound = inr refl;
}

done_gives_nothing_example :
    Returns
      (observe_all one_byte closed (asks 1 ∷ ticks ∷ joins "10.0.0.3" ∷ asks 2 ∷ []))
      (λ r. (r.0.is_done ≡ true) × All IsHomeward r.1)
done_gives_nothing_example =
    done_gives_nothing one_byte one_byte_readable 1 1 closed
      (asks 1 ∷ ticks ∷ joins "10.0.0.3" ∷ asks 2 ∷ []) closed-Inv refl (tt, (tt, (tt, (tt, tt))))
