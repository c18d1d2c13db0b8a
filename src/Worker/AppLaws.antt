-- ===== src/Worker/AppLaws.antt =====
-- What Lab2_MapReduce/src/mrapps/wc.go and indexer.go compute, run by mr/worker.go.
use tda596labs.Coordinator.Types.{Bytes, FileRead, content}
use tda596labs.Coordinator.Handlers.{make_coordinator}
use tda596labs.Base.{
  ◌==◌, if◌then◌else◌, length, All, ok, index, same, ℕ, suc, ◌+◌, ◌%◌, ◌<◌, String, ◌≡◌, refl, ap,
  ◌∙◌, Bool, true, false, some, List, [], ◌∷◌, ◌++◌, arith,
}
use tda596labs.Base.IntMap.{lookup}
use tda596labs.Worker.Tasks.{KeyValue, ihash}
use tda596labs.Worker.Groups.{values_of, outputs_of, one_call}
use tda596labs.Worker.Agreement.{emitted}
use tda596labs.Worker.Process.{Lines, Libs, State, split_colons, worker_main}
use tda596labs.Worker.System.{System, rpcs_of}
use tda596labs.Worker.LoneRun.{IsLawful}
use tda596labs.Worker.LoneResults.{sequential_lem, lone_worker_finishes}
use tda596labs.Worker.Apps.{fields_func, count_words, wc_map, wc_reduce}
use Prim.Native.Char.{Char}
use mathlib.Core.List.{Perm}
use mathlib.Core.List.{Permᴰ}
use mathlib.Core.Logic.{∥∥₁_elim}

-- How often a word stands in a list, and in all files.
abbrev pub occurrences : String → List String → ℕ
occurrences k [] = 0
occurrences k (w ∷ words) = let more = occurrences k words in if same w k then suc more else more

abbrev pub total : (String → List String) → String → List String → ℕ
total words k [] = 0
total words k (name ∷ names) = occurrences k (words name) + total words k names

length-Permᴰ : {us ts : List String} → Permᴰ us ts → length us ≡ length ts
length-Permᴰ Permᴰ.nil = refl
length-Permᴰ (Permᴰ.cons e p) = ap suc (length-Permᴰ p)
length-Permᴰ (Permᴰ.swap e f) = refl
length-Permᴰ (Permᴰ.trans p q) = length-Permᴰ p ∙ length-Permᴰ q

pub length-Perm : (us ts : List String) → Perm us ts → length us ≡ length ts
length-Perm us ts p = ∥∥₁_elim p (hlevel) (length-Permᴰ)

values_of-count_words :
    (k : String) (words : List String)
    → length (values_of k (count_words words)) ≡ occurrences k words
unfolding count_words
values_of-count_words k [] = refl
values_of-count_words k (w ∷ words) = ground (arith, values_of-count_words k words)

values_of-++ :
    (k : String) (kvs more : List KeyValue)
    → length (values_of k (kvs ++ more)) ≡ length (values_of k kvs) + length (values_of k more)
values_of-++ k [] more = omega arith
values_of-++ k (kv ∷ kvs) more = ground (arith, values_of-++ k kvs more)

values_of-wc :
    (is_letter : Char → Bool) (contents : String → String) (k : String) (names : List String)
    → length (values_of k (emitted (wc_map is_letter) contents names))
      ≡ total (λ name. fields_func is_letter (contents name)) k names
unfolding wc_map
values_of-wc is_letter contents k [] = refl
values_of-wc is_letter contents k (name ∷ names) = omega (
  arith,
  values_of-++ k (count_words (fields_func is_letter (contents name)))
      (emitted (wc_map is_letter) contents names),
  values_of-count_words k (fields_func is_letter (contents name)),
  values_of-wc is_letter contents k names,
)

-- The libraries with the word count as the application.
abbrev pub wc_libs : Libs → (Char → Bool) → (ℕ → String) → Libs
wc_libs libs is_letter itoa = record libs { mapf = wc_map is_letter; reducef = wc_reduce itoa }

wc_libs-IsLawful :
    (libs : Libs) (is_letter : Char → Bool) (itoa : ℕ → String)
    → IsLawful libs
    → IsLawful (wc_libs libs is_letter itoa)
unfolding wc_reduce
wc_libs-IsLawful libs is_letter itoa laws = record {
  sort_groups = laws.sort_groups;
  sort_keeps = laws.sort_keeps;
  glob_keeps = laws.glob_keeps;
  reduce_unordered = λ key us ts p. ap itoa (length-Perm us ts p);
}

one_call-wc :
    (itoa : ℕ → String) (k : String) (values : List String) (n : ℕ)
    → length values ≡ n
    → one_call (wc_reduce itoa) k values ≡ (if n == 0 then [] else itoa n ∷ [])
unfolding wc_reduce
one_call-wc itoa k [] n e = rw (← e) refl
one_call-wc itoa k (v ∷ values) n e =
    let some_values : (suc (length values) == 0) ≡ false = ground arith in
    rw (← e, some_values) refl

-- Let the libraries be lawful, the worker's address have a colon, every input file be readable, at
-- least one reduce job be asked for, and `serverHandler` run a fixed number of rounds, at least one,
-- right before each `GetWork`. Then one worker that runs wc.go ends within a turn for each input file,
-- one for each reduce job and one more, with the coordinator done, and for every word `k` the output
-- file of reduce job `b` has the number of its occurrences in all files once, if it occurs and hashes
-- to `b`, and nothing if not.
pub wc_counts :
    (libs : Libs) (is_letter : Char → Bool) (itoa : ℕ → String) (fs : String → FileRead)
    (bytes : String → Bytes) (ip address port : String) (files : List String) (m pause b : ℕ)
    (k : String)
    → IsLawful libs
    → index (split_colons address) 1 ≡ ok port
    → All (λ name. fs name ≡ content (bytes name)) files
    → b < m
    → (let n = total (λ name. fields_func is_letter (libs.to_text (bytes name))) k files in
        (s : State System) × (mine : Lines) × (worker_main
            (wc_libs libs is_letter itoa)
            (rpcs_of fs (suc pause))
            (length files + (m + 1))
            (record { coordinator = make_coordinator ip files m; output = [] })
            address
          ≡ ok (some s))
        × (s.world.coordinator.is_done ≡ true)
        × (lookup b s.world.output ≡ some (libs.show_lines mine))
        × (outputs_of k mine
            ≡ (if ihash libs.sum32 k % m == b then (if n == 0 then [] else itoa n ∷ []) else [])))
wc_counts libs is_letter itoa fs bytes ip address port files m pause b k laws addressed readable h =
    let app = wc_libs libs is_letter itoa in
    let lawful = wc_libs-IsLawful libs is_letter itoa laws in
    let contents : String → String = λ name. libs.to_text (bytes name) in
    let (s, mine, all, e, d, f, g, o) =
      lone_worker_finishes app fs bytes ip address port files m pause b k lawful addressed readable
        h in
    let (all', g', o') = sequential_lem app contents files k lawful in
    let same_all : all ≡ all' = ground (arith, g, g') in
    let counted =
      one_call-wc itoa k (values_of k (emitted app.mapf contents files)) _
        (values_of-wc is_letter contents k files) in
    (
      s,
      mine,
      e,
      d,
      f,
      o
          ∙ ap (λ out. if ihash libs.sum32 k % m == b then out else [])
              (ap (outputs_of k) same_all ∙ o' ∙ counted),
    )
