-- ===== src/Worker/Tasks.antt =====
-- The map and reduce tasks of Lab2_MapReduce/src/mr/worker.go. FNV-1a, the JSON stream and the sort
-- are the standard library's: they are parameters.
use tda596labs.Base.{
  ◌==◌, if◌then◌else◌, length, replicate, Outcome, ok, panic, ◌>>=◌, index, store, same, ℕ, zero,
  suc, ◌%◌, String, not, Option, none, some, List, [], ◌∷◌, ◌++◌,
}
use mathlib.Core.Option
use Prim.Native.Nat.{bit_and}

pub record KeyValue : Type 0 where
  pub key : String
  pub value : String

-- `ihash`, with `sum32` for FNV-1a.
unfoldable pub ihash : (String → ℕ) → String → ℕ
ihash sum32 key = bit_and (sum32 key) 0x7fffffff

-- `a % b` on `int`: a panic if `b` is 0.
unfoldable pub int_mod : ℕ → ℕ → Outcome ℕ
int_mod a b = if b == 0 then panic else ok (a % b)

module _ (sum32 : String → ℕ) where
  -- The first loop of `DoMap`: each pair goes to the end of its bucket.
  unfoldable pub fill_buckets :
      ℕ → List KeyValue → List (List KeyValue) → Outcome (List (List KeyValue))
  fill_buckets nreduce [] intermediate = ok intermediate
  fill_buckets nreduce (kv ∷ kvs) intermediate = do
    bucket_id ← int_mod (ihash sum32 kv.key) nreduce
    bucket ← index intermediate bucket_id
    intermediate' ← store intermediate bucket_id (bucket ++ kv ∷ [])
    fill_buckets nreduce kvs intermediate'

  -- `intermediate` of `DoMap` for the pairs that the map function emits.
  unfoldable pub do_map : ℕ → List KeyValue → Outcome (List (List KeyValue))
  do_map nreduce pairs = fill_buckets nreduce pairs (replicate nreduce [])

-- The inner loop of `DoReduce`: the values of the key at the head of the list, and what is left.
unfoldable pub take_key : String → List KeyValue → List String × List KeyValue
take_key key [] = ([], [])
take_key key (kv ∷ kvs) =
    let rest = take_key key kvs in
    if same kv.key key then (kv.value ∷ rest.0, rest.1) else ([], kv ∷ kvs)

-- The outer loop, with `fuel` rounds left: a key with its values for each call of the reduce
-- function; `none` if the fuel runs out.
unfoldable pub group : ℕ → List KeyValue → Option (List (String × List String))
group fuel [] = some []
group zero (kv ∷ kvs) = none
group (suc fuel) (kv ∷ kvs) =
    let r = take_key kv.key (kv ∷ kvs) in
    Option.map (λ groups. (kv.key, r.0) ∷ groups) (group fuel r.1)

-- The lines of the output file, by key.
unfoldable pub reduce_lines :
    (String → List String → String) → List (String × List String) → List (String × String)
reduce_lines reducef [] = []
reduce_lines reducef ((key, values) ∷ groups) =
    (key, reducef key values) ∷ reduce_lines reducef groups

-- `DoReduce` on the pairs that were collected; `sort` is `sort.Sort(ByKey(…))`.
unfoldable pub do_reduce :
    (List KeyValue → List KeyValue)
    → (String → List String → String)
    → List KeyValue
    → Option (List (String × String))
do_reduce sort reducef pairs =
    let sorted = sort pairs in Option.map (reduce_lines reducef) (group (length sorted) sorted)

-- Where a reduce task gets the map output of a location from: its own files, another worker, or
-- nowhere, if another worker has this worker's own address; then the job is reported as failed.
pub data Source : Type 0 where
  own_files other_worker failing : Source

unfoldable pub source_of : ℕ → String → ℕ → String → Source
source_of worker_id ip_address location_id address =
    if location_id == worker_id
    then own_files
    else if not (same address ip_address)
    then other_worker
    else failing
