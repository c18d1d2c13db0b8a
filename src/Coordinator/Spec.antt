-- ===== src/Coordinator/Spec.antt =====
-- What a coordinator promises, without owners, timers, cursors and addresses: a board of the jobs
-- that are finished, and the moves on it that mr/coordinator.go may make.
use tda596labs.Base.{
  if◌then◌else◌, length, set, replicate, All, ℕ, ◌<◌, ◌≡◌, refl, ◌⊎◌, Bool, true, false, not, List,
  [], ◌∷◌,
}
use tda596labs.Coordinator.Types.{Bytes}

pub record Board : Type 0 where
  pub over : Bool
  pub maps : List Bool
  pub reduces : List Bool

-- What the outside sees of a move.
pub data Seen : Type 0 where
  silent waiting sent_home : Seen
  gave_map gave_reduce : ℕ → Seen
  wrote : ℕ → Bytes → Seen

abbrev pub all_set : List Bool → Bool
all_set [] = true
all_set (set_here ∷ rest) = let more = all_set rest in if not set_here then false else more

-- Jobs may lose their results, and none gains one.
abbrev pub Lost : List Bool → List Bool → Type 0
Lost [] [] = Unit
Lost [] (y ∷ ys) = ⊥
Lost (x ∷ xs) [] = ⊥
Lost (x ∷ xs) (y ∷ ys) = ((y ≡ x) ⊎ (y ≡ false)) × Lost xs ys

-- A map job is given while map jobs are open, and a reduce job only when none is; only the results
-- of map jobs get lost; it is over only when all jobs are finished.
pub data Move (b : Board) : Seen → Board → Type 0 where
  idles : Move b silent b
  sends_home : b.over ≡ true → Move b sent_home b
  makes_wait : b.over ≡ false → Move b waiting b
  gives_map :
      (j : ℕ) → b.over ≡ false → all_set b.maps ≡ false → j < length b.maps → Move b (gave_map j) b
  gives_reduce :
      (j : ℕ)
      → b.over ≡ false
      → all_set b.maps ≡ true
      → j < length b.reduces
      → Move b (gave_reduce j) b
  ends_map : (j : ℕ) → j < length b.maps → Move b silent (record b { maps = set b.maps j true })
  ends_reduce :
      (j : ℕ) (bytes : Bytes)
      → j < length b.reduces
      → Move b (wrote j bytes) (record b { reduces = set b.reduces j true })
  ends_unwritten :
      (j : ℕ) → j < length b.reduces → Move b silent (record b { reduces = set b.reduces j true })
  loses : (left : List Bool) → Lost b.maps left → Move b silent (record b { maps = left })
  stops :
      all_set b.maps ≡ true → all_set b.reduces ≡ true → Move b silent (record b { over = true })

-- A sequence of moves, by what is seen of them.
pub data Schedule : Board → List Seen → Board → Type 0 where
  no_moves : (b : Board) → Schedule b [] b
  then_move :
      (b b' b'' : Board) (s : Seen) (seen : List Seen)
      → Move b s b'
      → Schedule b' seen b''
      → Schedule b (s ∷ seen) b''

-- The board before any job is given.
abbrev pub fresh_board : ℕ → ℕ → Board
fresh_board n m = record { over = false; maps = replicate n false; reduces = replicate m false }

-- No job is given, and nobody is told to wait.
abbrev pub IsHomeward : Seen → Type 0
IsHomeward (gave_map j) = ⊥
IsHomeward (gave_reduce j) = ⊥
IsHomeward waiting = ⊥
IsHomeward _ = Unit

pub Move-over :
    (b b' : Board) (s : Seen) → Move b s b' → b.over ≡ true → (b'.over ≡ true) × IsHomeward s
Move-over b b' silent idles h = (h, tt)
Move-over b b' sent_home (sends_home e) h = (h, tt)
Move-over b b' waiting (makes_wait e) h = absurd (cc (e, h))
Move-over b b' (gave_map k) (gives_map j e f i) h = absurd (cc (e, h))
Move-over b b' (gave_reduce k) (gives_reduce j e f i) h = absurd (cc (e, h))
Move-over b b' silent (ends_map j i) h = (h, tt)
Move-over b b' (wrote k out) (ends_reduce j bytes i) h = (h, tt)
Move-over b b' silent (ends_unwritten j i) h = (h, tt)
Move-over b b' silent (loses left l) h = (h, tt)
Move-over b b' silent (stops e f) h = (refl, tt)

-- Once the board is over it stays over, and no schedule gives a job.
pub Schedule-over :
    (b b' : Board) (seen : List Seen)
    → Schedule b seen b'
    → b.over ≡ true
    → (b'.over ≡ true) × All IsHomeward seen
Schedule-over b b' [] (no_moves c) h = (h, tt)
Schedule-over b b' (s ∷ seen) (then_move b0 c b1 s0 seen0 m rest) h =
    let now = Move-over b c s m h in
    let later = Schedule-over c b' seen rest now.0 in (later.0, (now.1, later.1))
