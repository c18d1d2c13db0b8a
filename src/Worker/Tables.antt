-- ===== src/Worker/Tables.antt =====
-- Job tables whose first jobs are finished, as one worker of mr/worker.go leaves them.
use tda596labs.Base.{
  length, replicate, ok, index, store, ℕ, zero, suc, ◌≡◌, refl, ap, true, false, List, [], ◌∷◌,
  ◌++◌,
}
use tda596labs.Coordinator.Types.{WorkChunk}
use tda596labs.Coordinator.Jobs.{all_completed, in_progress, tick_timers}

module _ {ℓ} {A : Type ℓ} where
  pub index-filled : (i : ℕ) (a x : A) (rest : List A) → index (replicate i a ++ x ∷ rest) i ≡ ok x
  unfolding index
  index-filled zero a x rest = refl
  index-filled (suc i) a x rest = index-filled i a x rest

  pub store-filled :
      (i : ℕ) (a x y : A) (rest : List A)
      → store (replicate i a ++ x ∷ rest) i y ≡ ok (replicate i a ++ y ∷ rest)
  unfolding store
  store-filled zero a x y rest = refl
  store-filled (suc i) a x y rest = rw (store-filled i a x y rest)

  pub replicate-fill :
      (i : ℕ) (a : A) (rest : List A) → replicate i a ++ a ∷ rest ≡ a ∷ (replicate i a ++ rest)
  replicate-fill zero a rest = refl
  replicate-fill (suc i) a rest = ap (λ l. a ∷ l) (replicate-fill i a rest)

  pub index-middle :
      (before : List A) (x : A) (after : List A)
      → index (before ++ x ∷ after) (length before) ≡ ok x
  unfolding index
  index-middle [] x after = refl
  index-middle (y ∷ before) x after = index-middle before x after

abbrev pub fresh_chunk : WorkChunk
fresh_chunk = record { worker_id = 0; completed = false }

abbrev pub finished_chunk : WorkChunk
finished_chunk = record { worker_id = 1; completed = true }

-- Jobs below `i` are finished by worker 1, and `k` more are not handed out.
abbrev pub chunks : ℕ → ℕ → List WorkChunk
chunks i k = replicate i finished_chunk ++ replicate k fresh_chunk

abbrev pub timers : ℕ → ℕ → List ℕ
timers i k = replicate i 1 ++ replicate k 0

pub all_completed-finished : (i : ℕ) → all_completed (chunks i 0) ≡ true
unfolding all_completed
all_completed-finished zero = refl
all_completed-finished (suc i) = all_completed-finished i

pub all_completed-open : (i k : ℕ) → all_completed (chunks i (suc k)) ≡ false
unfolding all_completed
all_completed-open zero k = refl
all_completed-open (suc i) k = all_completed-open i k

pub tick_timers-chunks : (i k : ℕ) → tick_timers (timers i k) (chunks i k) ≡ ok (timers i k)
unfolding tick_timers in_progress
tick_timers-chunks zero zero = refl
tick_timers-chunks zero (suc k) = rw (tick_timers-chunks zero k)
tick_timers-chunks (suc i) k = rw (tick_timers-chunks i k)
