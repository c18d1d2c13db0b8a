-- ===== src/Worker/Agreement.antt =====
-- The distributed run of Lab2_MapReduce/src/mr/worker.go gives the results of the sequential
-- program Lab2_MapReduce/src/main/mrsequential.go.
use tda596labs.Base.{
  ◌==◌, if◌then◌else◌, Bool-cases, length, ok, ◌>>=◌, index_ok, returned, same, same_iff, ℕ, zero,
  suc, ◌%◌, ◌<◌, String, ◌≡◌, refl, sym, ap, subst, ◌∙◌, inl, inr, Bool, true, false, some, List,
  [], ◌∷◌, ◌++◌, arith,
}
use tda596labs.Worker.Tasks.{KeyValue, ihash, do_map, take_key, group, reduce_lines, do_reduce}
use tda596labs.Worker.Buckets.{of_bucket, do_map_lem}
use tda596labs.Worker.Groups.{
  values_of, Contiguous, outputs_of, one_call, take_key_head, group_lem, do_reduce_lem,
}
use tda596labs.Worker.Sequential.{map_all, sequential_group, sequential, shuffle}
use mathlib.Core.List.{Perm}
use mathlib.Core.List.Perm.{eq-nil, nil-eq}

-- What the map function emits on all files.
abbrev pub emitted :
    (String → String → List KeyValue) → (String → String) → List String → List KeyValue
emitted mapf contents [] = []
emitted mapf contents (filename ∷ filenames) =
    mapf filename (contents filename) ++ emitted mapf contents filenames

pub map_all_lem :
    (mapf : String → String → List KeyValue) (contents : String → String) (filenames : List String)
    → map_all (λ name. some (contents name)) mapf filenames ≡ ok (emitted mapf contents filenames)
unfolding map_all
map_all_lem mapf contents [] = refl
map_all_lem mapf contents (filename ∷ filenames) = rw (map_all_lem mapf contents filenames)

pub sequential_group_lem :
    (fuel : ℕ) (kvs : List KeyValue) → sequential_group fuel kvs ≡ group fuel kvs
unfolding sequential_group group
sequential_group_lem zero [] = refl
sequential_group_lem (suc fuel) [] = refl
sequential_group_lem zero (kv ∷ kvs) = refl
sequential_group_lem (suc fuel) (kv ∷ kvs) =
    rw (take_key_head kv kvs, sequential_group_lem fuel (take_key kv.key kvs).1)

pub of_bucket-++ :
    (sum32 : String → ℕ) (nreduce b : ℕ) (kvs more : List KeyValue)
    → of_bucket sum32 nreduce b (kvs ++ more)
      ≡ of_bucket sum32 nreduce b kvs ++ of_bucket sum32 nreduce b more
of_bucket-++ sum32 nreduce b [] more = refl
of_bucket-++ sum32 nreduce b (kv ∷ kvs) more =
    elim (Bool-cases (ihash sum32 kv.key % nreduce == b)) [
      | inl e ↦ rw (e, of_bucket-++ sum32 nreduce b kvs more)
      | inr e ↦ rw (e, of_bucket-++ sum32 nreduce b kvs more)
    ]

pub values_of-of_bucket :
    (sum32 : String → ℕ) (nreduce b : ℕ) (k : String) (kvs : List KeyValue)
    → values_of k (of_bucket sum32 nreduce b kvs)
      ≡ (if ihash sum32 k % nreduce == b then values_of k kvs else [])
values_of-of_bucket sum32 nreduce b k [] = ground arith
values_of-of_bucket sum32 nreduce b k (kv ∷ kvs) =
    let rest = values_of-of_bucket sum32 nreduce b k kvs in
    elim (Bool-cases (same kv.key k)) [
      | inl e ↦
          let f : kv.key ≡ k = (same_iff kv.key k).0 e in
          elim (Bool-cases (ihash sum32 kv.key % nreduce == b)) [
            | inl g ↦ rw (g, e, rest, subst (λ x. (ihash sum32 x % nreduce == b) ≡ true) f g)
            | inr g ↦ rw (g, e, rest, subst (λ x. (ihash sum32 x % nreduce == b) ≡ false) f g)
          ]
      | inr e ↦ elim (Bool-cases (ihash sum32 kv.key % nreduce == b)) [
        | inl g ↦ rw (g, e, rest)
        | inr g ↦ rw (g, e, rest)
      ]
    ]

shuffle_lem :
    (sum32 : String → ℕ) (nreduce b : ℕ) (mapf : String → String → List KeyValue)
    (contents : String → String) (filenames : List String)
    → b < nreduce
    → shuffle sum32 nreduce b mapf contents filenames
      ≡ ok (of_bucket sum32 nreduce b (emitted mapf contents filenames))
unfolding shuffle
shuffle_lem sum32 nreduce b mapf contents [] h = refl
shuffle_lem sum32 nreduce b mapf contents (filename ∷ filenames) h =
    let rest = shuffle_lem sum32 nreduce b mapf contents filenames h in
    let (out, e, (counted, bucket)) =
      returned _ (do_map sum32 nreduce (mapf filename (contents filename)))
        (do_map_lem sum32 nreduce b (mapf filename (contents filename)) h) in
    let (found, i, g) = index_ok out b (omega arith) in
    let same_bucket : found ≡ of_bucket sum32 nreduce b (mapf filename (contents filename)) = cc in
    rw (
      e,
      i,
      rest,
      same_bucket,
      of_bucket-++ sum32 nreduce b (mapf filename (contents filename))
          (emitted mapf contents filenames),
    )

pub one_call-Perm :
    (reducef : String → List String → String) (k : String) (vs ws : List String)
    → Perm vs ws
    → ((key : String) (us ts : List String) → Perm us ts → reducef key us ≡ reducef key ts)
    → one_call reducef k vs ≡ one_call reducef k ws
one_call-Perm reducef k [] [] p h = refl
one_call-Perm reducef k [] (w ∷ ws) p h = absurd (cc (nil-eq p))
one_call-Perm reducef k (v ∷ vs) [] p h = absurd (cc (eq-nil p))
one_call-Perm reducef k (v ∷ vs) (w ∷ ws) p h = ap (λ out. out ∷ []) (h k (v ∷ vs) (w ∷ ws) p)

-- A sort of these pairs: equal keys stand together, and the values of `k` stay up to their order.
abbrev pub Sorts : (List KeyValue → List KeyValue) → String → List KeyValue → Type 0
Sorts sort k pairs = Contiguous (sort pairs) × Perm (values_of k (sort pairs)) (values_of k pairs)

-- Let every input file be readable, the sort sort all pairs and those of bucket `b`, and the reduce
-- function not depend on the order of its values. Then the shuffle of the map tasks returns, both
-- reduce loops end, and reduce task `b` has the outputs of the sequential program for `k` if `k`
-- hashes to `b`, and none if not.
pub distributed_agrees :
    (sum32 : String → ℕ) (nreduce b : ℕ) (sort : List KeyValue → List KeyValue)
    (reducef : String → List String → String) (mapf : String → String → List KeyValue)
    (contents : String → String) (filenames : List String) (k : String)
    → b < nreduce
    → Sorts sort k (emitted mapf contents filenames)
    → Sorts sort k (of_bucket sum32 nreduce b (emitted mapf contents filenames))
    → ((key : String) (us ts : List String) → Perm us ts → reducef key us ≡ reducef key ts)
    → (mine all : List (String × String)) × ((shuffle sum32 nreduce b mapf contents filenames
          >>= λ pairs. ok (do_reduce sort reducef pairs))
        ≡ ok (some mine))
      × (sequential sort reducef mapf (λ name. some (contents name)) filenames ≡ ok (some all))
      × (outputs_of k mine ≡ (if ihash sum32 k % nreduce == b then outputs_of k all else []))
unfolding sequential
distributed_agrees sum32 nreduce b sort reducef mapf contents filenames k h (c, p) (c', p') order =
    let pairs = emitted mapf contents filenames in
    let bucket = of_bucket sum32 nreduce b pairs in
    let (mine, vs, e, q, f) = do_reduce_lem sort reducef bucket k c' p' in
    let (groups, e', f') = group_lem reducef (length (sort pairs)) (sort pairs) k (omega arith) c in
    (
      mine,
      reduce_lines reducef groups,
      rw (shuffle_lem sum32 nreduce b mapf contents filenames h, e),
      rw (
        map_all_lem mapf contents filenames,
        sequential_group_lem (length (sort pairs)) (sort pairs),
        e',
      ),
      f
          ∙ one_call-Perm reducef k vs (values_of k bucket) q order
          ∙ ap (one_call reducef k) (values_of-of_bucket sum32 nreduce b k pairs)
          ∙ one_call_if (ihash sum32 k % nreduce == b)
          ∙ ap (λ out. if ihash sum32 k % nreduce == b then out else [])
              (sym (
                f'
                ∙ one_call-Perm reducef k (values_of k (sort pairs)) (values_of k pairs) p order)),
    )
  where
    one_call_if :
        (here : Bool)
        → one_call reducef k (if here then values_of k (emitted mapf contents filenames) else [])
          ≡ (if here
              then one_call reducef k (values_of k (emitted mapf contents filenames))
              else [])
    one_call_if true = refl
    one_call_if false = refl
