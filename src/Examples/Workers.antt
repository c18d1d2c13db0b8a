-- ===== src/Examples/Workers.antt =====
-- A worker of Lab2_MapReduce/src/mr/worker.go on two input files.
use tda596labs.Base.{
  ◌==◌, if◌then◌else◌, length, ok, index, same, ℕ, ◌%◌, String, ◌≡◌, refl, true, some, List, [],
  ◌∷◌, arith,
}
use tda596labs.Base.IntMap.{lookup}
use tda596labs.Examples.Sorts.{sort_pairs, sort_pairs-Contiguous, sort_pairs-Perm}
use tda596labs.Coordinator.Types.{Bytes, content}
use tda596labs.Coordinator.Handlers.{make_coordinator}
use tda596labs.Worker.Tasks.{KeyValue, ihash}
use tda596labs.Worker.Groups.{outputs_of}
use tda596labs.Worker.Sequential.{sequential}
use tda596labs.Worker.Process.{Lines, Libs, State, split_colons, worker_main}
use tda596labs.Worker.System.{System, rpcs_of}
use tda596labs.Worker.LoneRun.{IsLawful}
use tda596labs.Worker.LoneResults.{lone_worker_finishes}
use mathlib.Core.List.Perm.{refl as perm_refl}

abbrev byte_sum : String → ℕ
byte_sum s = if same s "a" then 4 else 7

abbrev pub one_or_two : String → String → List KeyValue
one_or_two name text =
    if same name "pg-one.txt"
    then record { key = "a"; value = "1" } ∷ record { key = "b"; value = "1" } ∷ []
    else record { key = "a"; value = "1" } ∷ []

abbrev line_bytes : Lines → Bytes
line_bytes lines = length lines ∷ []

abbrev pub libs : Libs
libs = record {
  sum32 = byte_sum;
  sort = sort_pairs;
  show_lines = line_bytes;
  to_text = λ bytes. "text";
  glob = λ files. files;
  mapf = one_or_two;
  reducef = λ key values. key;
}

abbrev pub libs-IsLawful : IsLawful libs
libs-IsLawful = record {
  sort_groups = sort_pairs-Contiguous;
  sort_keeps = sort_pairs-Perm;
  glob_keeps = λ files. perm_refl files;
  reduce_unordered = λ key us ts p. refl;
}

abbrev no_bytes : String → Bytes
no_bytes name = []

abbrev pub texts : List String
texts = "pg-one.txt" ∷ "pg-two.txt" ∷ []

lone_worker_finishes_example :
    (s : State System) × (mine all : Lines) × (worker_main libs
        (rpcs_of (λ name. content (no_bytes name)) 1)
        5
        (record { coordinator = make_coordinator "10.0.0.1" texts 2; output = [] })
        "10.0.0.2:1234"
      ≡ ok (some s))
    × (s.world.coordinator.is_done ≡ true)
    × (lookup 0 s.world.output ≡ some (libs.show_lines mine))
    × (sequential libs.sort libs.reducef libs.mapf (λ name. some "text") texts ≡ ok (some all))
    × (outputs_of "a" mine ≡ (if ihash libs.sum32 "a" % 2 == 0 then outputs_of "a" all else []))
unfolding index split_colons
lone_worker_finishes_example =
    lone_worker_finishes libs (λ name. content (no_bytes name)) no_bytes "10.0.0.1" "10.0.0.2:1234"
      "1234" texts 2 0 0 "a" libs-IsLawful refl (refl, (refl, tt)) (omega arith)
