-- ===== src/Examples/Words.antt =====
-- The applications Lab2_MapReduce/src/mrapps/wc.go and indexer.go on two short texts.
use tda596labs.Base.{
  ltb, ◌==◌, if◌then◌else◌, length, ok, index, same, ℕ, ◌%◌, String, ◌≡◌, refl, Bool, true, ◌&&◌,
  some, List, [], ◌∷◌, arith,
}
use tda596labs.Base.IntMap.{lookup}
use tda596labs.Examples.Sorts.{sort_pairs, sort_pairs-Contiguous, sort_pairs-Perm}
use tda596labs.Coordinator.Types.{Bytes, content}
use tda596labs.Coordinator.Handlers.{make_coordinator}
use tda596labs.Worker.Tasks.{ihash}
use tda596labs.Worker.Groups.{values_of, outputs_of}
use tda596labs.Worker.Process.{Lines, Libs, State, split_colons, worker_main}
use tda596labs.Worker.System.{System, rpcs_of}
use tda596labs.Worker.LoneRun.{IsLawful}
use tda596labs.Worker.Apps.{fields_func, indexer_map}
use tda596labs.Worker.AppLaws.{occurrences, total, wc_libs, wc_counts}
use tda596labs.Worker.IndexLaws.{indexer_map_once}
use Prim.Native.Char.{Char, code}
use mathlib.Core.List.Perm.{refl as perm_refl}

abbrev letter : Char → Bool
letter c = ltb 96 (code c) && ltb (code c) 123

abbrev digits : ℕ → String
digits n = if n == 2 then "2" else if n == 1 then "1" else "many"

abbrev word_libs : Libs
word_libs = record {
  sum32 = λ key. 3;
  sort = sort_pairs;
  show_lines = λ lines. length lines ∷ [];
  to_text = λ bytes. if length bytes == 1 then "a b, a" else "b";
  glob = λ files. files;
  mapf = λ name text. [];
  reducef = λ key values. key;
}

abbrev word_libs-IsLawful : IsLawful word_libs
word_libs-IsLawful = record {
  sort_groups = sort_pairs-Contiguous;
  sort_keeps = sort_pairs-Perm;
  glob_keeps = λ files. perm_refl files;
  reduce_unordered = λ key us ts p. refl;
}

abbrev text_bytes : String → Bytes
text_bytes name = if same name "pg-one.txt" then 0 ∷ [] else []

abbrev books : List String
books = "pg-one.txt" ∷ "pg-two.txt" ∷ []

wc_counts_example :
    (let n = total (λ name. fields_func letter (word_libs.to_text (text_bytes name))) "a" books in
      (s : State System) × (mine : Lines) × (worker_main
          (wc_libs word_libs letter digits)
          (rpcs_of (λ name. content (text_bytes name)) 1)
          5
          (record { coordinator = make_coordinator "10.0.0.1" books 2; output = [] })
          "10.0.0.2:1234"
        ≡ ok (some s))
      × (s.world.coordinator.is_done ≡ true)
      × (lookup 1 s.world.output ≡ some (word_libs.show_lines mine))
      × (outputs_of "a" mine ≡ (
          if ihash word_libs.sum32 "a" % 2 == 1
          then (if n == 0 then [] else digits n ∷ [])
          else [])))
unfolding index split_colons
wc_counts_example =
    wc_counts word_libs letter digits (λ name. content (text_bytes name)) text_bytes "10.0.0.1"
      "10.0.0.2:1234" "1234" books 2 0 1 "a" word_libs-IsLawful refl (refl, (refl, tt))
      (omega arith)

indexer_map_once_example :
    values_of "a" (indexer_map letter (λ keys. keys) "pg-one.txt" "a b, a")
    ≡ (if occurrences "a" (fields_func letter "a b, a") == 0 then [] else "pg-one.txt" ∷ [])
indexer_map_once_example =
    indexer_map_once letter (λ keys. keys) "pg-one.txt" "a b, a" "a" (λ key keys. refl)
