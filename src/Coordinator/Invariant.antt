-- ===== src/Coordinator/Invariant.antt =====
-- What holds of the coordinator between any two events: mr/coordinator.go.
use tda596labs.Base.{
  length, length-set, All, All-set, ℕ, String, ◌≡◌, refl, ◌≢◌, ◌⊎◌, inl, inr, true, false, List, [],
  arith,
}
use tda596labs.Base.IntMap.{insert, lookup-insert}
use tda596labs.Coordinator.Types.{Bytes, WorkChunk, Coordinator, WorkReply, FileRead, open_failed}
use tda596labs.Coordinator.Jobs.{all_completed}
use tda596labs.Coordinator.Handlers.{make_coordinator}
use tda596labs.Coordinator.Bounds.{IsWellFormed, make_coordinator-IsWellFormed}
use tda596labs.Coordinator.Answers.{
  after_map, after_reduce, Answer, finished, first_map, again_map, map_waits, first_reduce,
  again_reduce, reduce_waits,
}
use tda596labs.Coordinator.Tables.{Listed, Listed-insert, Listed-fresh}

pub record Inv (num_files nreduce : ℕ) (c : Coordinator) : Type 0 where
  pub well_formed : IsWellFormed c
  pub files_fixed : c.mapper.num_files ≡ num_files
  pub reduces_fixed : c.nreduce ≡ nreduce
  -- Every owner of a map job is among the workers that reducers are sent to.
  pub owners_listed : All (Listed c.mapper.map_worker_ids) c.mapper.completed_mappers
  -- `IsDone` is set only with every reduce job completed.
  pub done_sound : (c.is_done ≡ false) ⊎ (all_completed c.reducer.completed_reducers ≡ true)

pub make_coordinator-Inv :
    (ip : String) (files : List String) (nreduce : ℕ)
    → Inv (length files) nreduce (make_coordinator ip files nreduce)
unfolding make_coordinator
make_coordinator-Inv ip files nreduce = record {
  well_formed = make_coordinator-IsWellFormed ip files nreduce;
  files_fixed = refl;
  reduces_fixed = refl;
  owners_listed = Listed-fresh (length files) [];
  done_sound = inl refl;
}

module _ (fs : String → FileRead) (readable : (name : String) → fs name ≢ open_failed)
    {n m : ℕ} where
  after_map-Inv :
      (c : Coordinator) (reply : WorkReply) (w j : ℕ) (name : String) (b : Bytes) (k : WorkChunk)
      → Inv n m c
      → Inv n m (after_map c reply w j name b k).0
  after_map-Inv c reply w j name b k v = record {
    well_formed = omega (
      arith,
      v.well_formed,
      length-set c.mapper_timeout j 1,
      length-set c.mapper.completed_mappers j (record k { worker_id = w }),
    );
    files_fixed = v.files_fixed;
    reduces_fixed = v.reduces_fixed;
    owners_listed =
        All-set (Listed (insert w true c.mapper.map_worker_ids)) c.mapper.completed_mappers j _
          (Listed-insert w _ _ v.owners_listed)
          (inr (ground (arith, lookup-insert w w true c.mapper.map_worker_ids)));
    done_sound = v.done_sound;
  }

  after_reduce-Inv :
      (c : Coordinator) (reply : WorkReply) (w j : ℕ) (k : WorkChunk)
      → c.is_done ≡ false
      → Inv n m c
      → Inv n m (after_reduce c reply w j k).0
  after_reduce-Inv c reply w j k d v = record {
    well_formed = omega (
      arith,
      v.well_formed,
      length-set c.reducer_timeout j 1,
      length-set c.reducer.completed_reducers j (record k { worker_id = w }),
    );
    files_fixed = v.files_fixed;
    reduces_fixed = v.reduces_fixed;
    owners_listed = v.owners_listed;
    done_sound = inl d;
  }

  pub Answer-Inv :
      (c : Coordinator) (w : ℕ) (reply : WorkReply) (r : Coordinator × WorkReply)
      → Inv n m c
      → Answer fs c w reply r
      → Inv n m r.0
  Answer-Inv c w reply r v (finished d e) = rw e v
  Answer-Inv c w reply r v (first_map d f b g) =
      let a : Inv n m (after_map c reply w c.mapper.current_job g.name g.bytes g.chunk).0 =
        after_map-Inv c reply w c.mapper.current_job g.name g.bytes g.chunk v in
      rw g.result (record {
        well_formed = omega (arith, a.well_formed);
        files_fixed = a.files_fixed;
        reduces_fixed = a.reduces_fixed;
        owners_listed = a.owners_listed;
        done_sound = a.done_sound;
      })
  Answer-Inv c w reply r v (again_map d f q j s g) =
      rw g.result (after_map-Inv c reply w j g.name g.bytes g.chunk v)
  Answer-Inv c w reply r v (map_waits d f q s e) = rw e v
  Answer-Inv c w reply r v (first_reduce d f b g) =
      let a : Inv n m (after_reduce c reply w c.reducer.current_job g.chunk).0 =
        after_reduce-Inv c reply w c.reducer.current_job g.chunk d v in
      rw g.result (record {
        well_formed = omega (arith, a.well_formed);
        files_fixed = a.files_fixed;
        reduces_fixed = a.reduces_fixed;
        owners_listed = a.owners_listed;
        done_sound = a.done_sound;
      })
  Answer-Inv c w reply r v (again_reduce d f q j s g) =
      rw g.result (after_reduce-Inv c reply w j g.chunk d v)
  Answer-Inv c w reply r v (reduce_waits d f q s e) = rw e v
