-- ===== src/Coordinator/Tables.antt =====
-- The effect of the table loops of mr/coordinator.go, element by element.
use tda596labs.Base.{
  ltb, ◌==◌, if◌then◌else◌, length, get_elem?, set, replicate, All, ok, ℕ, zero, suc, ◌+◌, ◌≡◌,
  refl, ap, ◌⊎◌, inl, Bool, true, false, ◌&&◌, some, List, [], ◌∷◌, map, arith,
}
use tda596labs.Base.IntMap.{IntMap, lookup, insert, delete, lookup-insert, lookup-delete}
use tda596labs.Coordinator.Types.{WorkChunk}
use tda596labs.Coordinator.Jobs.{all_completed, clear_dead, in_progress, tick_timers}

-- What `clearMapDeadWorker` leaves of one job.
abbrev pub forget_chunk : ℕ → WorkChunk → WorkChunk
forget_chunk w k = if k.worker_id == w then record { worker_id = 0; completed = false } else k

abbrev pub forget_timers : ℕ → List WorkChunk → List ℕ → List ℕ
forget_timers w [] ts = ts
forget_timers w (k ∷ ks) [] = []
forget_timers w (k ∷ ks) (t ∷ ts) = (if k.worker_id == w then 0 else t) ∷ forget_timers w ks ts

pub clear_dead_lem :
    (w : ℕ) (ks : List WorkChunk) (ts : List ℕ)
    → length ks ≡ length ts
    → clear_dead w ks ts ≡ ok (map (forget_chunk w) ks, forget_timers w ks ts)
unfolding clear_dead
clear_dead_lem w [] ts h = refl
clear_dead_lem w (k ∷ ks) [] h = absurd (omega arith)
clear_dead_lem w (k ∷ ks) (t ∷ ts) h = rw (clear_dead_lem w ks ts (omega arith)) (ground arith)

pub length-forget : (w : ℕ) (ks : List WorkChunk) → length (map (forget_chunk w) ks) ≡ length ks
length-forget w [] = refl
length-forget w (k ∷ ks) = ap suc (length-forget w ks)

pub length-forget_timers :
    (w : ℕ) (ks : List WorkChunk) (ts : List ℕ) → length (forget_timers w ks ts) ≡ length ts
length-forget_timers w [] ts = refl
length-forget_timers w (k ∷ ks) [] = refl
length-forget_timers w (k ∷ ks) (t ∷ ts) = ap suc (length-forget_timers w ks ts)

-- What one round leaves of one timer.
abbrev pub tick_timer : ℕ → WorkChunk → ℕ
tick_timer t k = if ltb 0 t && in_progress k then t + 1 else t

abbrev pub ticked : List ℕ → List WorkChunk → List ℕ
ticked [] ks = []
ticked (t ∷ ts) [] = []
ticked (t ∷ ts) (k ∷ ks) = tick_timer t k ∷ ticked ts ks

pub tick_timers_lem :
    (ts : List ℕ) (ks : List WorkChunk)
    → length ts ≡ length ks
    → tick_timers ts ks ≡ ok (ticked ts ks)
unfolding tick_timers
tick_timers_lem [] ks h = refl
tick_timers_lem (t ∷ ts) [] h = absurd (omega arith)
tick_timers_lem (t ∷ ts) (k ∷ ks) h = rw (tick_timers_lem ts ks (omega arith))

pub length-ticked :
    (ts : List ℕ) (ks : List WorkChunk) → length ts ≡ length ks → length (ticked ts ks) ≡ length ts
length-ticked [] ks h = refl
length-ticked (t ∷ ts) [] h = absurd (omega arith)
length-ticked (t ∷ ts) (k ∷ ks) h = ap suc (length-ticked ts ks (omega arith))

-- One job that is not completed is enough.
pub not_all_completed :
    (ks : List WorkChunk) (j : ℕ) {k : WorkChunk}
    → get_elem? ks j ≡ some k
    → k.completed ≡ false
    → all_completed ks ≡ false
unfolding all_completed
not_all_completed [] j e f = cc
not_all_completed (x ∷ ks) zero e f = ground arith
not_all_completed (x ∷ ks) (suc j) e f = ground (arith, not_all_completed ks j e f)

-- Changing a job's owner does not change whether the table is completed.
pub all_completed-set_owner :
    (ks : List WorkChunk) (j w : ℕ) {k : WorkChunk}
    → get_elem? ks j ≡ some k
    → all_completed (set ks j (record k { worker_id = w })) ≡ all_completed ks
unfolding all_completed
all_completed-set_owner [] j w e = refl
all_completed-set_owner (x ∷ ks) zero w e = ground arith
all_completed-set_owner (x ∷ ks) (suc j) w e = ground (arith, all_completed-set_owner ks j w e)

-- Completing a job of a completed table keeps it completed.
pub all_completed-set_completed :
    (ks : List WorkChunk) (j : ℕ) (k : WorkChunk)
    → all_completed ks ≡ true
    → all_completed (set ks j (record k { completed = true })) ≡ true
unfolding all_completed
all_completed-set_completed [] j k e = refl
all_completed-set_completed (x ∷ ks) zero k e = ground arith
all_completed-set_completed (x ∷ ks) (suc j) k e =
    ground (arith, all_completed-set_completed ks j k)

-- The owner of a job, if it has one, is listed in `mapWorkerIds`.
abbrev pub Listed : IntMap Bool → WorkChunk → Type 0
Listed ids k = (k.worker_id ≡ 0) ⊎ (lookup k.worker_id ids ≡ some true)

pub Listed-insert :
    (w : ℕ) (ids : IntMap Bool) (ks : List WorkChunk)
    → All (Listed ids) ks
    → All (Listed (insert w true ids)) ks
Listed-insert w ids [] h = tt
Listed-insert w ids (k ∷ ks) h =
    (ground (arith, h.0, lookup-insert w k.worker_id true ids), Listed-insert w ids ks h.1)

pub Listed-delete :
    (w : ℕ) (ids : IntMap Bool) (ks : List WorkChunk)
    → All (Listed ids) ks
    → All (Listed (delete w ids)) (map (forget_chunk w) ks)
Listed-delete w ids [] h = tt
Listed-delete w ids (k ∷ ks) h =
    (ground (arith, h.0, lookup-delete w k.worker_id ids), Listed-delete w ids ks h.1)

pub Listed-fresh :
    (n : ℕ) (ids : IntMap Bool)
    → All (Listed ids) (replicate n (record { worker_id = 0; completed = false }))
Listed-fresh zero ids = tt
Listed-fresh (suc n) ids = (inl refl, Listed-fresh n ids)
