-- ===== src/Coordinator/Observed.antt =====
-- The steps of mr/coordinator.go with what is seen of them, and the board that its state keeps.
use tda596labs.Base.{
  ◌==◌, if◌then◌else◌, length, get_elem?, set, Outcome, ok, ◌>>=◌, ℕ, zero, suc, String, ◌≡◌, refl,
  sym, ap, Bool, true, Option, none, some, List, [], ◌∷◌, arith,
}
use tda596labs.Coordinator.Types.{Bytes, WorkChunk, Coordinator, WorkReply, FileRead}
use tda596labs.Coordinator.Jobs.{all_completed}
use tda596labs.Coordinator.Handlers.{
  empty_reply, get_work, worker_dead, do_setup, work_done, server_tick,
}
use tda596labs.Coordinator.Runs.{Event, asks, completes, reports, joins, ticks}
use tda596labs.Coordinator.Spec.{
  Board, Seen, silent, waiting, sent_home, gave_map, gave_reduce, wrote, all_set,
}
use tda596labs.Coordinator.Method

abbrev pub finished_jobs : List WorkChunk → List Bool
finished_jobs [] = []
finished_jobs (chunk ∷ chunks) = chunk.completed ∷ finished_jobs chunks

-- The board that a coordinator keeps.
abbrev pub view : Coordinator → Board
view c = record {
  over = c.is_done;
  maps = finished_jobs c.mapper.completed_mappers;
  reduces = finished_jobs c.reducer.completed_reducers;
}

-- What a worker sees in a reply to `GetWork`.
abbrev pub seen_in : WorkReply → Seen
seen_in reply =
    if reply.work_type == Method.nowork
    then sent_home
    else if reply.work_type == Method.wait
    then waiting
    else if reply.work_type == Method.map
    then gave_map reply.job_id
    else if reply.work_type == Method.reduce
    then gave_reduce reply.job_id
    else silent

abbrev pub seen_written : Option (ℕ × Bytes) → Seen
seen_written none = silent
seen_written (some (job_id, bytes)) = wrote job_id bytes

-- A step of the coordinator, with what is seen of it.
unfoldable pub observe : (String → FileRead) → Coordinator → Event → Outcome (Coordinator × Seen)
observe fs c (asks w) = get_work fs c w empty_reply >>= λ r. ok (r.0, seen_in r.1)
observe fs c (completes create_ok complete) =
    work_done create_ok c complete >>= λ r. ok (r.0, seen_written r.1)
observe fs c (reports failed) = worker_dead c failed >>= λ c'. ok (c', silent)
observe fs c (joins ip) = ok ((do_setup c ip).0, silent)
observe fs c ticks = server_tick c >>= λ c'. ok (c', silent)

unfoldable pub observe_all :
    (String → FileRead) → Coordinator → List Event → Outcome (Coordinator × List Seen)
observe_all fs c [] = ok (c, [])
observe_all fs c (e ∷ es) =
    observe fs c e >>= λ r. observe_all fs r.0 es >>= λ s. ok (s.0, r.1 ∷ s.1)

pub length-finished_jobs : (ks : List WorkChunk) → length (finished_jobs ks) ≡ length ks
length-finished_jobs [] = refl
length-finished_jobs (k ∷ ks) = omega (arith, length-finished_jobs ks)

pub all_set-finished_jobs : (ks : List WorkChunk) → all_set (finished_jobs ks) ≡ all_completed ks
unfolding all_completed
all_set-finished_jobs [] = refl
all_set-finished_jobs (k ∷ ks) = rw (all_set-finished_jobs ks) refl

-- A chunk that is written back with another owner changes no job.
pub finished_jobs-set_owner :
    (ks : List WorkChunk) (j w : ℕ) (k : WorkChunk)
    → get_elem? ks j ≡ some k
    → finished_jobs (set ks j (record k { worker_id = w })) ≡ finished_jobs ks
finished_jobs-set_owner [] j w k e = cc
finished_jobs-set_owner (x ∷ ks) zero w k e =
    let s : x ≡ k = ground (arith, e) in ap (λ c. c.completed ∷ finished_jobs ks) (sym s)
finished_jobs-set_owner (x ∷ ks) (suc j) w k e =
    ap (λ l. x.completed ∷ l) (finished_jobs-set_owner ks j w k e)

pub finished_jobs-set_completed :
    (ks : List WorkChunk) (j : ℕ) (k : WorkChunk)
    → finished_jobs (set ks j (record k { completed = true })) ≡ set (finished_jobs ks) j true
finished_jobs-set_completed [] j k = refl
finished_jobs-set_completed (x ∷ ks) zero k = refl
finished_jobs-set_completed (x ∷ ks) (suc j) k =
    ap (λ l. x.completed ∷ l) (finished_jobs-set_completed ks j k)
