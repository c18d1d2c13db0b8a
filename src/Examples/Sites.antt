-- ===== src/Examples/Sites.antt =====
-- A reduce task of Lab2_MapReduce/src/mr/worker.go with the map outputs of two workers.
use tda596labs.Base.{
  ◌==◌, if◌then◌else◌, ok, same, ℕ, zero, suc, ◌%◌, ◌≡◌, refl, inl, inr, true, false, none, some,
  List, [], ◌∷◌, arith,
}
use tda596labs.Examples.Workers.{one_or_two, libs, libs-IsLawful, texts}
use tda596labs.Worker.Tasks.{KeyValue, ihash, do_reduce, source_of}
use tda596labs.Worker.Groups.{outputs_of}
use tda596labs.Worker.Sequential.{sequential}
use tda596labs.Worker.Shuffle.{Split}
use tda596labs.Worker.Process.{Lines, Rpcs, Disk, State, get_mapped_buckets, collect}
use tda596labs.Worker.Spread.{Site, sites_locations, spread_agrees}
use mathlib.Core.List.Perm.{refl as perm_refl}

abbrev here_disk : Disk
here_disk = record {
  intermediate =
      (0, (record { key = "a"; value = "1" } ∷ record { key = "b"; value = "1" } ∷ []) ∷ []) ∷ [];
  outputs = [];
}

abbrev there_disk : Disk
there_disk = record {
  intermediate = (1, (record { key = "a"; value = "1" } ∷ []) ∷ []) ∷ [];
  outputs = [];
}

abbrev here : Site
here = record {
  location = record { worker_id = 1; address = "10.0.0.2" };
  disk = here_disk;
  names = "pg-one.txt" ∷ [];
}

abbrev there : Site
there = record {
  location = record { worker_id = 2; address = "10.0.0.3" };
  disk = there_disk;
  names = "pg-two.txt" ∷ [];
}

-- Only the other worker answers, with its files.
abbrev two_rpcs : Rpcs ℕ
two_rpcs = record {
  setup = λ w address. (w, none);
  get_work = λ w id. (w, none);
  work_done = λ w complete. w;
  worker_dead = λ w failed. (w, true);
  get_files = λ w address b.
      if same address "10.0.0.3" then some (get_mapped_buckets libs there_disk b) else none;
}

abbrev reducer : State ℕ
reducer = record {
  world = 0;
  worker = record {
    is_setup = true;
    ip_address = "10.0.0.2";
    port = "1234";
    worker_id = 1;
    completed_map_tasks = true ∷ false ∷ [];
    completed_reduce_tasks = false ∷ [];
  };
  disk = here_disk;
}

here-Split :
    Split libs.sum32 1
      (one_or_two "pg-one.txt" "text")
      ((record { key = "a"; value = "1" } ∷ record { key = "b"; value = "1" } ∷ []) ∷ [])
unfolding ihash
here-Split zero h = refl
here-Split (suc b) h = absurd (omega arith)

there-Split :
    Split libs.sum32 1
      (one_or_two "pg-two.txt" "text")
      ((record { key = "a"; value = "1" } ∷ []) ∷ [])
unfolding ihash
there-Split zero h = refl
there-Split (suc b) h = absurd (omega arith)

spread_agrees_example :
    (pairs : List KeyValue) × (mine all : Lines) × (collect libs two_rpcs reducer 0
        (sites_locations (here ∷ there ∷ []))
      ≡ ok (reducer, some pairs))
    × (do_reduce libs.sort libs.reducef pairs ≡ some mine)
    × (sequential libs.sort libs.reducef libs.mapf (λ name. some "text") texts ≡ ok (some all))
    × (outputs_of "a" mine ≡ (if ihash libs.sum32 "a" % 1 == 0 then outputs_of "a" all else []))
unfolding source_of
spread_agrees_example =
    spread_agrees libs two_rpcs (λ name. "text") 1 0 "a" reducer (here ∷ there ∷ []) texts
      libs-IsLawful (omega arith) (perm_refl _) (inl (refl, refl), (inr (refl, refl), tt))
      ((here-Split, tt), ((there-Split, tt), tt))
