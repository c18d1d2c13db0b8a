-- ===== src/Coordinator/Bounds.antt =====
-- The tables of mr/coordinator.go have the lengths that its loops and indices suppose.
use tda596labs.Base.{length, length-replicate, ℕ, ◌≤◌, ◌<◌, String, ◌≡◌, List, arith}
use tda596labs.Coordinator.Types.{Coordinator}
use tda596labs.Coordinator.Handlers.{make_coordinator}

pub record IsWellFormed (c : Coordinator) : Type 0 where
  pub files_counted : length c.mapper.files ≡ c.mapper.num_files
  pub mappers_counted : length c.mapper.completed_mappers ≡ c.mapper.num_files
  pub map_timers_counted : length c.mapper_timeout ≡ c.mapper.num_files
  pub map_cursor : c.mapper.current_job ≤ c.mapper.num_files
  pub reducers_counted : length c.reducer.completed_reducers ≡ c.nreduce
  pub reduce_timers_counted : length c.reducer_timeout ≡ c.nreduce
  pub reduce_cursor : c.reducer.current_job ≤ c.nreduce
  pub ids_positive : 0 < c.next_worker_id

pub make_coordinator-IsWellFormed :
    (ip : String) (files : List String) (nreduce : ℕ)
    → IsWellFormed (make_coordinator ip files nreduce)
unfolding make_coordinator
make_coordinator-IsWellFormed ip files nreduce = omega (arith, length-replicate {0})
