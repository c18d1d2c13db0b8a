-- ===== src/Coordinator/Replies.antt =====
-- What the replies of `GetWork` in mr/coordinator.go tell the workers.
use tda596labs.Base.{
  ◌==◌, Bool-cases, get_elem?, All-get_elem?, ok, Returns, returns_map, ℕ, ◌<◌, String, ◌≡◌, refl,
  sym, ap, ◌∙◌, ◌≢◌, ◌⊎◌, inl, inr, Bool, true, ◌&&◌, ◌||◌, some, List, [], ◌∷◌, arith,
}
use tda596labs.Base.IntMap.{IntMap, lookup}
use tda596labs.Coordinator.Method.{reduce}
use tda596labs.Coordinator.Types.{
  timeout, WorkChunk, Coordinator, WorkerLocation, WorkReply, FileRead, open_failed,
}
use tda596labs.Coordinator.Jobs.{all_completed, needs_retry, find_retry}
use tda596labs.Coordinator.Handlers.{
  empty_reply, address_of, locations, get_reduce_file_locations, get_work, server_tick,
}
use tda596labs.Coordinator.Bounds.{IsWellFormed}
use tda596labs.Coordinator.Answers.{
  Answer, finished, first_map, again_map, map_waits, first_reduce, again_reduce, reduce_waits,
}
use tda596labs.Coordinator.Dispatch.{get_work-Answer}
use tda596labs.Coordinator.Tables.{tick_timers_lem, Listed}
use tda596labs.Coordinator.Invariant.{Inv}
use tda596labs.Coordinator.Retries.{AllOut, GivesMap}
use tda596labs.Coordinator.Method

-- Some location of the list is that of the worker, with that address.
abbrev pub HasLocation : ℕ → String → List WorkerLocation → Type 0
HasLocation w address [] = ⊥
HasLocation w address (l ∷ ls) =
    ((l.worker_id ≡ w) × (l.address ≡ address)) ⊎ HasLocation w address ls

locations-HasLocation :
    (w : ℕ) (b : Bool) (ids : IntMap Bool) (workers : IntMap String)
    → lookup w ids ≡ some b
    → HasLocation w (address_of (lookup w workers)) (locations ids workers)
unfolding lookup locations
locations-HasLocation w b [] workers e = cc
locations-HasLocation w b ((i, x) ∷ ids) workers e = elim (Bool-cases (i == w)) [
  | inl h ↦ let g : i ≡ w = ground arith in inl (g, ap (λ j. address_of (lookup j workers)) g)
  | inr h ↦ inr (locations-HasLocation w b ids workers (rw h at e))
]

-- The reply sends its worker to every owner of a map job, if it is a reduce job at all.
abbrev pub CoversOwner : Coordinator → ℕ → WorkReply → Type 0
CoversOwner c owner reply =
    (reply.work_type ≢ Method.reduce)
    ⊎ ((all_completed c.mapper.completed_mappers ≡ true)
        × HasLocation owner (address_of (lookup owner c.workers)) reply.reduce_file_locations)

module _ (fs : String → FileRead) (readable : (name : String) → fs name ≢ open_failed) where
  module _ {n m : ℕ} (c : Coordinator) (w j : ℕ) (k : WorkChunk) (v : Inv n m c)
      (in_table : get_elem? c.mapper.completed_mappers j ≡ some k) (owned : k.worker_id ≢ 0) where
    owner_listed : lookup k.worker_id c.mapper.map_worker_ids ≡ some true
    owner_listed = ground (
      arith,
      All-get_elem? (Listed c.mapper.map_worker_ids) c.mapper.completed_mappers j v.owners_listed
          in_table,
    )

    covered :
        HasLocation k.worker_id
          (address_of (lookup k.worker_id c.workers))
          (get_reduce_file_locations c)
    unfolding get_reduce_file_locations
    covered = locations-HasLocation k.worker_id true c.mapper.map_worker_ids c.workers owner_listed

    Answer-CoversOwner :
        (r : Coordinator × WorkReply) → Answer fs c w empty_reply r → CoversOwner c k.worker_id r.1
    Answer-CoversOwner r (finished d e) = inl (rw e (λ h. absurd (omega arith)))
    Answer-CoversOwner r (first_map d f b g) = inl (rw g.result (λ h. absurd (omega arith)))
    Answer-CoversOwner r (again_map d f q i s g) = inl (rw g.result (λ h. absurd (omega arith)))
    Answer-CoversOwner r (map_waits d f q s e) = inl (rw e (λ h. absurd (omega arith)))
    Answer-CoversOwner r (first_reduce d f b g) = inr (f, rw g.result covered)
    Answer-CoversOwner r (again_reduce d f q i s g) = inr (f, rw g.result covered)
    Answer-CoversOwner r (reduce_waits d f q s e) = inl (rw e (λ h. absurd (omega arith)))

    -- Let every input file be readable, the invariant hold and map job `j` have an owner. Then
    -- `get_work` returns, and if its reply is a reduce job, every map job is completed and the
    -- reply lists the owner of job `j` with the address that the owner registered (the empty
    -- address if it is not registered).
    pub reduce_reply_covers :
        Returns (get_work fs c w empty_reply) (λ r. CoversOwner c k.worker_id r.1)
    reduce_reply_covers =
        returns_map _ (get_work fs c w empty_reply)
          (get_work-Answer fs readable c w empty_reply v.well_formed) Answer-CoversOwner

  -- A map job is handed out again although it is completed: if all map jobs were handed out, some
  -- map job is not completed, and job 0 was completed after its timer had passed TIMEOUT, then the
  -- next call of `get_work` returns job 0.
  pub completed_job_repeated :
      (c : Coordinator) (w : ℕ) (reply : WorkReply) (t : ℕ) (k : WorkChunk)
      → IsWellFormed c
      → AllOut c
      → get_elem? c.mapper_timeout 0 ≡ some t
      → timeout < t
      → get_elem? c.mapper.completed_mappers 0 ≡ some k
      → k.completed ≡ true
      → Returns (get_work fs c w reply) (λ r. GivesMap r × (r.1.job_id ≡ 0))
  completed_job_repeated c w reply t k v a e b f g =
      returns_map _ (get_work fs c w reply) (get_work-Answer fs readable c w reply v) go
    where
      first_hit :
          (ts : List ℕ) (ks : List WorkChunk)
          → get_elem? ts 0 ≡ some t
          → get_elem? ks 0 ≡ some k
          → find_retry 0 ts ks ≡ ok (some 0)
      first_hit [] ks e f = cc
      first_hit (x ∷ ts) [] e f = cc
      first_hit (x ∷ ts) (y ∷ ks) e f = unfold find_retry needs_retry in ground (arith, b)

      hit : find_retry 0 c.mapper_timeout c.mapper.completed_mappers ≡ ok (some 0)
      hit = first_hit c.mapper_timeout c.mapper.completed_mappers e f

      go : (r : Coordinator × WorkReply) → Answer fs c w reply r → GivesMap r × (r.1.job_id ≡ 0)
      go r (finished d e) = absurd (cc (sym a.running ∙ d))
      go r (first_map d f b g) = absurd (omega (arith, a.at_end))
      go r (again_map d f q j s g) = rw g.result (refl, cc (sym s ∙ hit))
      go r (map_waits d f q s e) = cc (sym s ∙ hit)
      go r (first_reduce d f b g) = absurd (cc (sym a.unfinished ∙ f))
      go r (again_reduce d f q j s g) = absurd (cc (sym a.unfinished ∙ f))
      go r (reduce_waits d f q s e) = absurd (cc (sym a.unfinished ∙ f))

-- One round of `server_tick` on a coordinator that satisfies the invariant returns, sets `IsDone`
-- exactly when it was set or both tables are completed, and moves no job and no cursor.
pub server_tick-is_done :
    {n m : ℕ} (c : Coordinator)
    → Inv n m c
    → Returns (server_tick c) (λ c'.
      (c'.is_done ≡ (
        c.is_done
        || all_completed c.mapper.completed_mappers && all_completed c.reducer.completed_reducers))
      × (c'.mapper ≡ c.mapper)
      × (c'.reducer ≡ c.reducer)
      × (c'.workers ≡ c.workers))
unfolding server_tick
server_tick-is_done c v = ground (
  arith,
  tick_timers_lem c.mapper_timeout c.mapper.completed_mappers (omega (arith, v.well_formed)),
  tick_timers_lem c.reducer_timeout c.reducer.completed_reducers (omega (arith, v.well_formed)),
)
