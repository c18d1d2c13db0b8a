-- ===== src/Raft/Persister.antt =====
-- The persister: Lab2_MapReduce/src/raft/persister.go. A nil slice and an empty one are both [].
use tda596labs.Base.{length, ℕ, ◌≡◌, refl, ap, List, [], ◌∷◌}

pub record Persister : Type 0 where
  pub raftstate : List ℕ
  pub snapshot : List ℕ

unfoldable pub make_persister : Persister
make_persister = record { raftstate = []; snapshot = [] }

-- `clone`: a new slice, filled element by element.
unfoldable pub clone : List ℕ → List ℕ
clone [] = []
clone (b ∷ orig) = b ∷ clone orig

unfoldable pub copy : Persister → Persister
unfolding make_persister
copy ps =
    let np : Persister = make_persister in
    record np { raftstate = ps.raftstate; snapshot = ps.snapshot }

unfoldable pub read_raft_state : Persister → List ℕ
unfolding clone
read_raft_state ps = clone ps.raftstate

unfoldable pub raft_state_size : Persister → ℕ
raft_state_size ps = length ps.raftstate

unfoldable pub save : Persister → List ℕ → List ℕ → Persister
unfolding clone
save ps raftstate snapshot = record ps { raftstate = clone raftstate; snapshot = clone snapshot }

unfoldable pub read_snapshot : Persister → List ℕ
unfolding clone
read_snapshot ps = clone ps.snapshot

unfoldable pub snapshot_size : Persister → ℕ
snapshot_size ps = length ps.snapshot

clone_same : (bs : List ℕ) → clone bs ≡ bs
unfolding clone
clone_same [] = refl
clone_same (b ∷ bs) = ap (λ l. b ∷ l) (clone_same bs)

-- What `save` was given is what every reader gets afterwards, from the persister and from a copy of
-- it, with its sizes.
pub read-save :
    (ps : Persister) (raftstate snapshot : List ℕ)
    → let after = save ps raftstate snapshot in
      (read_raft_state after ≡ raftstate)
      × (read_snapshot after ≡ snapshot)
      × (read_raft_state (copy after) ≡ raftstate)
      × (read_snapshot (copy after) ≡ snapshot)
      × (raft_state_size after ≡ length raftstate)
      × (snapshot_size after ≡ length snapshot)
unfolding save read_raft_state read_snapshot copy raft_state_size snapshot_size
read-save ps raftstate snapshot = simp clone_same (refl, refl, refl, refl, refl, refl)
