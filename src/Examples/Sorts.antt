-- ===== src/Examples/Sorts.antt =====
-- A sort by keys for the reduce tasks of Lab2_MapReduce/src/mr/worker.go to run with.
use tda596labs.Base.{
  if◌then◌else◌, Bool-cases, same, same_iff, same_refl, same_ne, String, ◌≡◌, subst, ◌⊎◌, inl, inr,
  true, false, List, [], ◌∷◌,
}
use tda596labs.Worker.Tasks.{KeyValue}
use tda596labs.Worker.Groups.{Absent, Starts, Contiguous}
use mathlib.Core.List.{Perm}
use mathlib.Core.List.Perm.{
  refl as perm_refl, trans as perm_trans, cons as perm_cons, swap as perm_swap,
}

-- Insertion in front of the first pair with the same key.
abbrev pub insert_pair : KeyValue → List KeyValue → List KeyValue
insert_pair kv [] = kv ∷ []
insert_pair kv (other ∷ rest) =
    let more = insert_pair kv rest in
    if same other.key kv.key then kv ∷ other ∷ rest else other ∷ more

abbrev pub sort_pairs : List KeyValue → List KeyValue
sort_pairs [] = []
sort_pairs (kv ∷ kvs) = insert_pair kv (sort_pairs kvs)

insert_pair-Absent :
    (key : String) (kv : KeyValue) (kvs : List KeyValue)
    → same kv.key key ≡ false
    → Absent key kvs
    → Absent key (insert_pair kv kvs)
insert_pair-Absent key kv [] e h = (e, tt)
insert_pair-Absent key kv (other ∷ rest) e h = elim (Bool-cases (same other.key kv.key)) [
  | inl y ↦ rw y (e, h)
  | inr n ↦ rw n (h.0, insert_pair-Absent key kv rest e h.1)
]

insert_pair-Starts :
    (key : String) (kv : KeyValue) (kvs : List KeyValue)
    → Starts key kvs
    → Starts key (insert_pair kv kvs)
insert_pair-Starts key kv [] h = absurd h
insert_pair-Starts key kv (other ∷ rest) h = elim (Bool-cases (same other.key kv.key)) [
  | inl y ↦ rw y (subst (λ k. same k key ≡ true) ((same_iff other.key kv.key).0 y) h)
  | inr n ↦ rw n h
]

insert_pair-Contiguous :
    (kv : KeyValue) (kvs : List KeyValue) → Contiguous kvs → Contiguous (insert_pair kv kvs)
insert_pair-Contiguous kv [] c = (inr tt, tt)
insert_pair-Contiguous kv (other ∷ rest) c = elim (Bool-cases (same other.key kv.key)) [
  | inl y ↦ rw y (inl y, c)
  | inr n ↦ rw n (after n c.0, insert_pair-Contiguous kv rest c.1)
]
  where
    after :
        same other.key kv.key ≡ false
        → Starts other.key rest ⊎ Absent other.key rest
        → Starts other.key (insert_pair kv rest) ⊎ Absent other.key (insert_pair kv rest)
    after n (inl h) = inl (insert_pair-Starts other.key kv rest h)
    after n (inr h) = inr (
        insert_pair-Absent other.key kv rest
          (same_ne kv.key other.key (λ e. absurd (cc (n, same_refl kv.key, e)))) h)

pub sort_pairs-Contiguous : (kvs : List KeyValue) → Contiguous (sort_pairs kvs)
sort_pairs-Contiguous [] = tt
sort_pairs-Contiguous (kv ∷ kvs) =
    insert_pair-Contiguous kv (sort_pairs kvs) (sort_pairs-Contiguous kvs)

insert_pair-Perm : (kv : KeyValue) (kvs : List KeyValue) → Perm (insert_pair kv kvs) (kv ∷ kvs)
insert_pair-Perm kv [] = perm_refl _
insert_pair-Perm kv (other ∷ rest) = elim (Bool-cases (same other.key kv.key)) [
  | inl y ↦ rw y (perm_refl _)
  | inr n ↦ rw n (perm_trans (perm_cons other (insert_pair-Perm kv rest)) (perm_swap kv other rest))
]

pub sort_pairs-Perm : (kvs : List KeyValue) → Perm (sort_pairs kvs) kvs
sort_pairs-Perm [] = perm_refl _
sort_pairs-Perm (kv ∷ kvs) =
    perm_trans (insert_pair-Perm kv (sort_pairs kvs)) (perm_cons kv (sort_pairs-Perm kvs))
