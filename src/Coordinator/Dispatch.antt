-- ===== src/Coordinator/Dispatch.antt =====
-- `GetWork` on a well-formed coordinator returns, and does what `Answer` says.
use tda596labs.Base.{
  ◌==◌, Bool-cases, length, ok, index_ok, store_ok, Returns, ℕ, ◌+◌, ◌<◌, String, ◌≡◌, refl, ap,
  ◌∙◌, ◌≢◌, ◌⊎◌, inl, inr, true, false, none, some, List, [], ◌∷◌, arith,
}
use tda596labs.Coordinator.Types.{
  Bytes, WorkChunk, Coordinator, WorkReply, FileRead, open_failed, read_failed, content,
}
use tda596labs.Coordinator.Jobs.{all_completed, needs_retry, find_retry}
use tda596labs.Coordinator.Handlers.{
  file_bytes, get_map_file_content, assign_map, retry_mapper, get_map_job, assign_reduce,
  retry_reducer, get_reduce_job, get_work,
}
use tda596labs.Coordinator.Bounds.{IsWellFormed}
use tda596labs.Coordinator.Answers.{
  after_map, after_reduce, next_map, next_reduce, GaveMap, GaveReduce, Answer, finished, first_map,
  again_map, map_waits, first_reduce, again_reduce, reduce_waits,
}

-- A scan finds a job that needs a retry, below the end of the tables, or shows that none does.
pub find_retry_found :
    (base : ℕ) (timers : List ℕ) (chunks : List WorkChunk)
    → length timers ≡ length chunks
    → (find_retry base timers chunks ≡ ok none)
      ⊎ ((i : ℕ) × (find_retry base timers chunks ≡ ok (some (base + i))) × (i < length timers))
unfolding find_retry
find_retry_found base [] chunks h = inl refl
find_retry_found base (t ∷ ts) [] h = absurd (omega arith)
find_retry_found base (t ∷ ts) (k ∷ ks) h = elim (Bool-cases (needs_retry t k)) [
  | inl e ↦ inr (0, rw e (ground arith), omega arith)
  | inr e ↦ elim (find_retry_found (base + 1) ts ks (omega arith)) [
    | inl n ↦ inl (rw e n)
    | inr (i, f, b) ↦ inr (i + 1, rw e (f ∙ ap (λ n. ok (some n)) (omega arith)), omega arith)
  ]
]

scan_cases :
    (timers : List ℕ) (chunks : List WorkChunk)
    → length timers ≡ length chunks
    → (find_retry 0 timers chunks ≡ ok none)
      ⊎ ((i : ℕ) × (find_retry 0 timers chunks ≡ ok (some i)) × (i < length timers))
scan_cases timers chunks h = elim (find_retry_found 0 timers chunks h) [
  | inl n ↦ inl n
  | inr (i, f, b) ↦ inr (i, f ∙ ap (λ n. ok (some n)) (omega arith), b)
]

assign_reduce_lem :
    (fs : String → FileRead) (c : Coordinator) (w : ℕ) (reply : WorkReply) (j : ℕ)
    → IsWellFormed c
    → j < c.nreduce
    → (r : Coordinator × WorkReply) × (assign_reduce c reply w j ≡ ok r)
      × GaveReduce fs c w reply (λ x. x) j r
unfolding assign_reduce
assign_reduce_lem fs c w reply j v h =
    let (k, g, in_table) = index_ok c.reducer.completed_reducers j (omega arith) in
    (
      after_reduce c reply w j k,
      rw (
        g,
        store_ok c.reducer.completed_reducers j (record k { worker_id = w }) (omega arith),
        store_ok c.reducer_timeout j 1 (omega arith),
      ),
      record { chunk = k; in_table = in_table; result = refl },
    )

module _ (fs : String → FileRead) (readable : (name : String) → fs name ≢ open_failed) where
  file_bytes_ok : (r : FileRead) → r ≢ open_failed → (b : Bytes) × (file_bytes r ≡ ok b)
  file_bytes_ok open_failed n = absurd (n refl)
  file_bytes_ok read_failed n = ([], refl)
  file_bytes_ok (content b) n = (b, refl)

  assign_map_lem :
      (c : Coordinator) (w : ℕ) (reply : WorkReply) (j : ℕ)
      → IsWellFormed c
      → j < c.mapper.num_files
      → (r : Coordinator × WorkReply) × (assign_map fs c reply w j ≡ ok r)
        × GaveMap fs c w reply (λ x. x) j r
  unfolding assign_map get_map_file_content
  assign_map_lem c w reply j v h =
      let (name, e, in_files) = index_ok c.mapper.files j (omega arith) in
      let (b, f) = file_bytes_ok (fs name) (readable name) in
      let (k, g, in_table) = index_ok c.mapper.completed_mappers j (omega arith) in
      (
        after_map c reply w j name b k,
        rw (
          e,
          f,
          g,
          store_ok c.mapper.completed_mappers j (record k { worker_id = w }) (omega arith),
          store_ok c.mapper_timeout j 1 (omega arith),
        ),
        record {
          name = name;
          bytes = b;
          chunk = k;
          in_files = in_files;
          as_read = f;
          in_table = in_table;
          result = refl;
        },
      )

  get_map_job-Answer :
      (c : Coordinator) (w : ℕ) (reply : WorkReply)
      → IsWellFormed c
      → c.is_done ≡ false
      → all_completed c.mapper.completed_mappers ≡ false
      → Returns (get_map_job fs c reply w) (Answer fs c w reply)
  unfolding get_map_job retry_mapper
  get_map_job-Answer c w reply v d m =
      elim (Bool-cases (c.mapper.current_job == c.mapper.num_files)) [
        | inr e ↦
            let (r, f, g) = assign_map_lem c w reply c.mapper.current_job v (ground arith) in
            rw (e, f)
              (first_map d m (ground arith) (record {
                name = g.name;
                bytes = g.bytes;
                chunk = g.chunk;
                in_files = g.in_files;
                as_read = g.as_read;
                in_table = g.in_table;
                result = ap next_map g.result;
              }))
        | inl e ↦ elim (scan_cases c.mapper_timeout c.mapper.completed_mappers (omega arith)) [
          | inl n ↦ rw (e, n) (map_waits d m (ground arith) n refl)
          | inr (j, n, b) ↦
              let (r, f, g) = assign_map_lem c w reply j v (omega arith) in
              rw (e, n, f) (again_map d m (ground arith) j n g)
        ]
      ]

  get_reduce_job-Answer :
      (c : Coordinator) (w : ℕ) (reply : WorkReply)
      → IsWellFormed c
      → c.is_done ≡ false
      → all_completed c.mapper.completed_mappers ≡ true
      → Returns (get_reduce_job c reply w) (Answer fs c w reply)
  unfolding get_reduce_job retry_reducer
  get_reduce_job-Answer c w reply v d m = elim (Bool-cases (c.reducer.current_job == c.nreduce)) [
    | inr e ↦
        let (r, f, g) = assign_reduce_lem fs c w reply c.reducer.current_job v (ground arith) in
        rw (e, f)
          (first_reduce d m (ground arith)
            (record { chunk = g.chunk; in_table = g.in_table; result = ap next_reduce g.result }))
    | inl e ↦ elim (scan_cases c.reducer_timeout c.reducer.completed_reducers (omega arith)) [
      | inl n ↦ rw (e, n) (reduce_waits d m (ground arith) n refl)
      | inr (j, n, b) ↦
          let (r, f, g) = assign_reduce_lem fs c w reply j v (omega arith) in
          rw (e, n, f) (again_reduce d m (ground arith) j n g)
    ]
  ]

  pub get_work-Answer :
      (c : Coordinator) (w : ℕ) (reply : WorkReply)
      → IsWellFormed c
      → Returns (get_work fs c w reply) (Answer fs c w reply)
  unfolding get_work
  get_work-Answer c w reply v = elim (Bool-cases c.is_done) [
    | inl d ↦ simp d (finished d refl)
    | inr d ↦ elim (Bool-cases (all_completed c.mapper.completed_mappers)) [
      | inl m ↦ simp (d, m) (get_reduce_job-Answer c w reply v d m)
      | inr m ↦ simp (d, m) (get_map_job-Answer c w reply v d m)
    ]
  ]
