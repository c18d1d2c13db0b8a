-- ===== src/Worker/Sequential.antt =====
-- The sequential program Lab2_MapReduce/src/main/mrsequential.go, and the map and reduce tasks of
-- Lab2_MapReduce/src/mr/worker.go put together: what reduce task `b` gets from all map tasks.
use tda596labs.Base.{
  length, Outcome, ok, fatal, ◌>>=◌, index, ℕ, zero, suc, String, Option, none, some, List, [], ◌∷◌,
  ◌++◌,
}
use mathlib.Core.Option
use tda596labs.Worker.Tasks.{KeyValue, do_map, take_key, reduce_lines}

-- The loop over the input files; the process exits if a file cannot be opened or read.
unfoldable pub map_all :
    (String → Option String)
    → (String → String → List KeyValue)
    → List String
    → Outcome (List KeyValue)
map_all files mapf [] = ok []
map_all files mapf (filename ∷ filenames) = elim (files filename) [
  | none ↦ fatal
  | some content ↦ map_all files mapf filenames >>= λ kva. ok (mapf filename content ++ kva)
]

-- The loop over `intermediate`, with `fuel` rounds left: the run of a key starts with the pair at
-- `i`, and `j` moves on from the next.
unfoldable pub sequential_group : ℕ → List KeyValue → Option (List (String × List String))
sequential_group fuel [] = some []
sequential_group zero (kv ∷ kvs) = none
sequential_group (suc fuel) (kv ∷ kvs) =
    let r = take_key kv.key kvs in
    Option.map (λ groups. (kv.key, kv.value ∷ r.0) ∷ groups) (sequential_group fuel r.1)

-- The program: the lines of mr-out-0.
unfoldable pub sequential :
    (List KeyValue → List KeyValue)
    → (String → List String → String)
    → (String → String → List KeyValue)
    → (String → Option String)
    → List String
    → Outcome (Option (List (String × String)))
sequential sort reducef mapf files filenames = map_all files mapf filenames >>= λ intermediate.
    let sorted = sort intermediate in
    ok (Option.map (reduce_lines reducef) (sequential_group (length sorted) sorted))

-- The pairs in the files `mr-*-b` after the map tasks for all files, task by task.
unfoldable pub shuffle :
    (String → ℕ)
    → ℕ
    → ℕ
    → (String → String → List KeyValue)
    → (String → String)
    → List String
    → Outcome (List KeyValue)
shuffle sum32 nreduce b mapf contents [] = ok []
shuffle sum32 nreduce b mapf contents (filename ∷ filenames) = do
  buckets ← do_map sum32 nreduce (mapf filename (contents filename))
  bucket ← index buckets b
  rest ← shuffle sum32 nreduce b mapf contents filenames
  ok (bucket ++ rest)
