-- ===== src/Worker/Buckets.antt =====
-- The map task of Lab2_MapReduce/src/mr/worker.go puts each pair into the bucket of its key.
use tda596labs.Base.{
  ◌==◌, if◌then◌else◌, Bool-cases, length, get_elem?, set, replicate, length-replicate, length-set,
  get_elem?-set_self, get_elem?-set_ne, ok, index_ok, store_ok, Returns, returns_map, ℕ, zero, suc,
  ◌%◌, ◌<◌, String, ◌≡◌, refl, sym, ap, ◌∙◌, inl, inr, some, List, [], ◌∷◌, ◌++◌, arith,
}
use tda596labs.Worker.Tasks.{KeyValue, ihash, int_mod, fill_buckets, do_map}
use mathlib.Core.List.{append_assoc, append-nil}
use native.Mathlib.Nat.{mod-lt}

-- The pairs of the list whose key hashes to bucket `b`, in order.
abbrev pub of_bucket : (String → ℕ) → ℕ → ℕ → List KeyValue → List KeyValue
of_bucket sum32 nreduce b [] = []
of_bucket sum32 nreduce b (kv ∷ kvs) =
    let rest = of_bucket sum32 nreduce b kvs in
    if ihash sum32 kv.key % nreduce == b then kv ∷ rest else rest

-- Bucket by bucket, the table holds what it held before and then the pairs of the list.
Filled : (String → ℕ) → ℕ → List KeyValue → List (List KeyValue) → List (List KeyValue) → Type 0
Filled sum32 nreduce kvs before after =
    (length after ≡ length before)
    × ((b : ℕ) (old : List KeyValue)
        → get_elem? before b ≡ some old
        → get_elem? after b ≡ some (old ++ of_bucket sum32 nreduce b kvs))

module _ (sum32 : String → ℕ) (nreduce : ℕ) (positive : 0 < nreduce) where
  int_mod_ok : (a : ℕ) → int_mod a nreduce ≡ ok (a % nreduce)
  unfolding int_mod
  int_mod_ok a = ground arith

  fill_step :
      (kv : KeyValue) (kvs : List KeyValue) (before after : List (List KeyValue))
      (bucket : List KeyValue)
      → get_elem? before (ihash sum32 kv.key % nreduce) ≡ some bucket
      → ihash sum32 kv.key % nreduce < length before
      → Filled sum32 nreduce kvs
          (set before (ihash sum32 kv.key % nreduce) (bucket ++ kv ∷ []))
          after
      → Filled sum32 nreduce (kv ∷ kvs) before after
  unfolding Filled
  fill_step kv kvs before after bucket e h f = (f.0 ∙ length-set before _ _, each)
    where
      i : ℕ
      i = ihash sum32 kv.key % nreduce

      each :
          (b : ℕ) (old : List KeyValue)
          → get_elem? before b ≡ some old
          → get_elem? after b
            ≡ some (
                old
                ++ (if i == b
                    then kv ∷ of_bucket sum32 nreduce b kvs
                    else of_bucket sum32 nreduce b kvs))
      each b old g = elim (Bool-cases (i == b)) [
        | inl y ↦
            let s : i ≡ b = ground arith in
            let t : bucket ≡ old = ground (arith, rw s at e) in
            rw (y, ← t, ← append_assoc bucket (kv ∷ []) (of_bucket sum32 nreduce b kvs))
              (f.1 b (bucket ++ kv ∷ [])
                (rw (← s) (get_elem?-set_self before i (bucket ++ kv ∷ []) h)))
        | inr n ↦
            rw n (f.1 b old (get_elem?-set_ne before i b (bucket ++ kv ∷ []) (ground arith) ∙ g))
      ]

  fill_buckets_lem :
      (kvs : List KeyValue) (before : List (List KeyValue))
      → length before ≡ nreduce
      → Returns (fill_buckets sum32 nreduce kvs before) (Filled sum32 nreduce kvs before)
  unfolding fill_buckets
  fill_buckets_lem [] before h =
      unfold Filled in (refl, λ b old e. e ∙ ap some (sym (append-nil old)))
  fill_buckets_lem (kv ∷ kvs) before h =
      let i = ihash sum32 kv.key % nreduce in
      let b : i < length before = grind (arith, mod-lt) in
      let (bucket, e, g) = index_ok before i b in
      rw (int_mod_ok (ihash sum32 kv.key), e, store_ok before i (bucket ++ kv ∷ []) b)
        (returns_map _ (fill_buckets sum32 nreduce kvs (set before i (bucket ++ kv ∷ [])))
          (fill_buckets_lem kvs (set before i (bucket ++ kv ∷ []))
            (length-set before i (bucket ++ kv ∷ []) ∙ h))
          (λ after f. fill_step kv kvs before after bucket g b f))

get_elem?-replicate :
    (n b : ℕ) → b < n → get_elem? (replicate n (let e : List KeyValue = [] in e)) b ≡ some []
get_elem?-replicate zero b h = elim h [ ]
get_elem?-replicate (suc n) zero h = refl
get_elem?-replicate (suc n) (suc b) h = get_elem?-replicate n b (omega arith)

-- With at least one reduce task `do_map` returns `nreduce` buckets, and bucket `b` holds exactly the
-- pairs whose key hashes to `b`, in the order in which the map function emitted them.
pub do_map_lem :
    (sum32 : String → ℕ) (nreduce b : ℕ) (pairs : List KeyValue)
    → b < nreduce
    → Returns
        (do_map sum32 nreduce pairs)
        (λ out. (length out ≡ nreduce) × (get_elem? out b ≡ some (of_bucket sum32 nreduce b pairs)))
unfolding do_map Filled
do_map_lem sum32 nreduce b pairs h =
    returns_map _ (fill_buckets sum32 nreduce pairs (replicate nreduce []))
      (fill_buckets_lem sum32 nreduce (omega arith) pairs (replicate nreduce [])
        (length-replicate nreduce []))
      (λ out f. (f.0 ∙ length-replicate nreduce [], f.1 b [] (get_elem?-replicate nreduce b h)))
