-- ===== src/Worker/LoneRun.antt =====
-- The run of `Worker` in mr/worker.go from its set-up to its end, for one worker alone with the
-- coordinator.
use tda596labs.Coordinator.Types.{Bytes, FileRead, content}
use tda596labs.Base.{
  ◌==◌, Bool-cases, length, length-append, All, ok, index, ℕ, zero, suc, ◌+◌, ◌<◌, String, ◌≡◌,
  refl, sym, ap, subst, ◌∙◌, inl, inr, true, false, some, List, [], ◌∷◌, ◌++◌, arith,
}
use tda596labs.Base.IntMap.{IntMap, lookup, insert, lookup-insert}
use tda596labs.Worker.Tasks.{KeyValue, do_reduce}
use tda596labs.Worker.Groups.{Contiguous, do_reduce_lem}
use tda596labs.Worker.Process.{Buckets, Lines, Libs, Rpcs, State, turn, work}
use tda596labs.Worker.System.{System}
use tda596labs.Worker.Shuffle.{values_of-Perm, do_map-Split, Holds, Holds-append, insert_last}
use tda596labs.Worker.Tables.{index-middle}
use tda596labs.Worker.LoneTurns.{collected, at, lone_rpcs, map_turn, reduce_turn, last_turn}
use mathlib.Core.List.{append_assoc, append-nil}
use mathlib.Core.List.{Perm}

-- What the application and the standard library promise: the sort puts equal keys together and
-- keeps the pairs, the glob names each file once, and the reduce function does not depend on the
-- order of its values.
pub record IsLawful (libs : Libs) : Type 0 where
  pub sort_groups : (pairs : List KeyValue) → Contiguous (libs.sort pairs)
  pub sort_keeps : (pairs : List KeyValue) → Perm (libs.sort pairs) pairs
  pub glob_keeps : (files : IntMap Buckets) → Perm (libs.glob files) files
  pub reduce_unordered :
      (key : String) (us ts : List String) → Perm us ts → libs.reducef key us ≡ libs.reducef key ts

All-add :
    (n : ℕ) (buckets : Buckets) (entries : IntMap Buckets)
    → All (λ e. e.0 < n) entries
    → All (λ e. e.0 < suc n) (entries ++ (n, buckets) ∷ [])
All-add n buckets [] h = (omega arith, tt)
All-add n buckets (x ∷ entries) h = (omega (arith, h.0), All-add n buckets entries h.1)

module _ {W : Type 0} (libs : Libs) (rpcs : Rpcs W) where
  work-goes :
      (fuel : ℕ) (s s' : State W)
      → turn libs rpcs s ≡ ok (s', true)
      → work libs rpcs (suc fuel) s ≡ work libs rpcs fuel s'
  unfolding work
  work-goes fuel s s' e = rw e refl

  work-ends :
      (fuel : ℕ) (s s' : State W)
      → turn libs rpcs s ≡ ok (s', false)
      → work libs rpcs (suc fuel) s ≡ ok (some s')
  unfolding work
  work-ends fuel s s' e = rw e refl

module _ (libs : Libs) (fs : String → FileRead) (bytes : String → Bytes) (ip address port : String)
    (m pause : ℕ) where
  abbrev pub text_of : String → String
  text_of name = libs.to_text (bytes name)

  module _ (files : List String) (positive : 0 < m) where
    abbrev rpcs : Rpcs System
    rpcs = lone_rpcs libs fs ip address port files m pause

    -- The map jobs: the files in `todo` are left, those in `past` are mapped.
    pub map_phase :
        (i : ℕ) (todo past : List String) (intermediate : IntMap Buckets) (fuel : ℕ)
        → files ≡ past ++ todo
        → i ≡ length past
        → All (λ name. fs name ≡ content (bytes name)) todo
        → Holds libs.sum32 m libs.mapf text_of past intermediate
        → All (λ e. e.0 < i) intermediate
        → (after : IntMap Buckets) × Holds libs.sum32 m libs.mapf text_of files after
          × (work libs rpcs (length todo + fuel) (
                at libs fs ip address port files m pause i
                  (length todo)
                  0
                  m
                  false
                  []
                  intermediate
                  [])
              ≡ work libs rpcs fuel
                  (at libs fs ip address port files m pause (length files) 0 0 m false [] after []))
    map_phase i [] past intermediate fuel e n r d b =
        let same_files : files ≡ past = e ∙ append-nil past in
        let none_more : length (let l : List String = [] in l) + fuel ≡ fuel = omega arith in
        (
          intermediate,
          subst (λ names. Holds libs.sum32 m libs.mapf text_of names intermediate) (sym same_files)
              d,
          rw (none_more, n ∙ ap length (sym same_files)) refl,
        )
    map_phase i (name ∷ todo) past intermediate fuel e n r d b =
        let (buckets, f, split) =
          do_map-Split libs.sum32 m (libs.mapf name (text_of name)) positive in
        let entered = insert_last i buckets intermediate b in
        let found : index files i ≡ ok name = rw (e, n) (index-middle past name todo) in
        let inside : i < length files = rw e (omega (arith, n, length-append past (name ∷ todo))) in
        let one_more : length (name ∷ todo) + fuel ≡ suc (length todo + fuel) = omega arith in
        let now =
          map_turn libs fs ip address port files m pause i (length todo) name (bytes name) []
            intermediate [] buckets found r.0 inside f in
        let (after, h, rest) =
          map_phase (suc i) todo (past ++ name ∷ []) (intermediate ++ (i, buckets) ∷ []) fuel
            (e ∙ sym (append_assoc past (name ∷ []) todo))
            (omega (arith, n, length-append past (name ∷ []))) r.1
            (Holds-append libs.sum32 m libs.mapf text_of past intermediate name i buckets d split)
            (All-add i buckets intermediate b) in
        (
          after,
          h,
          ap
                (λ t. work libs rpcs t (
                  at libs fs ip address port files m pause i (length (name ∷ todo)) 0 m false []
                    intermediate []))
                one_more
              ∙ work-goes libs rpcs (length todo + fuel) _ _ now
              ∙ ap
                  (λ d. work libs rpcs (length todo + fuel) (
                    at libs fs ip address port files m pause (suc i) (length todo) 0 m false [] d
                      []))
                  entered
              ∙ rest,
        )

    -- Reduce job `b` has written the lines of the pairs that it collects.
    abbrev pub Written : ℕ → IntMap Buckets → ℕ → IntMap Bytes → Type 0
    Written i intermediate b output =
        (lines : Lines) × (do_reduce libs.sort libs.reducef (collected libs i intermediate b)
          ≡ some lines)
        × (lookup b output ≡ some (libs.show_lines lines))

    also :
        (i r : ℕ) (lines : Lines) (output : IntMap Bytes) (intermediate : IntMap Buckets)
        → do_reduce libs.sort libs.reducef (collected libs i intermediate r) ≡ some lines
        → ((b : ℕ) → b < r → Written i intermediate b output)
        → (b : ℕ) → b < suc r
        → Written i intermediate b (insert r (libs.show_lines lines) output)
    also i r lines output intermediate e w b h = elim (Bool-cases (r == b)) [
      | inl y ↦
          let here : r ≡ b = ground arith in
          (lines, rw (← here) e, lookup-insert r b (libs.show_lines lines) output ∙ rw y refl)
      | inr n ↦
          let (old, f, g) = w b (ground arith) in
          (old, f, lookup-insert r b (libs.show_lines lines) output ∙ rw n g)
    ]

    -- The reduce jobs, once there are `i` map jobs and all are finished.
    pub reduce_phase :
        (i r l : ℕ) (output : IntMap Bytes) (intermediate : IntMap Buckets) (outputs : IntMap Lines)
        → IsLawful libs
        → r + l ≡ m
        → ((b : ℕ) → b < r → Written i intermediate b output)
        → (output' : IntMap Bytes) × (outputs' : IntMap Lines) × ((b : ℕ)
            → b < m
            → Written i intermediate b output')
          × (work libs rpcs
                (l + 1)
                (at libs fs ip address port files m pause i 0 r l false output intermediate outputs)
              ≡ ok (
                  some (
                    at libs fs ip address port files m pause i 0 m 0 true output' intermediate
                      outputs')))
    reduce_phase i r zero output intermediate outputs laws n w =
        let all : r ≡ m = omega arith in
        (
          output,
          outputs,
          λ b h. w b (omega arith),
          work-ends libs rpcs 0 _ _
                (last_turn libs fs ip address port files m pause i r output intermediate outputs)
              ∙ ap
                  (λ n. ok (
                    some (
                      at libs fs ip address port files m pause i 0 n 0 true output intermediate
                        outputs)))
                  all,
        )
    reduce_phase i r (suc l) output intermediate outputs laws n w =
        let pairs = collected libs i intermediate r in
        let (lines, vs, e, _, _) =
          do_reduce_lem libs.sort libs.reducef pairs "" (laws.sort_groups pairs)
            (values_of-Perm "" (libs.sort pairs) pairs (laws.sort_keeps pairs)) in
        let one_more : suc l + 1 ≡ suc (l + 1) = omega arith in
        let now =
          reduce_turn libs fs ip address port files m pause i r l output intermediate outputs lines
            (omega arith) e in
        let (output', outputs', w', rest) =
          reduce_phase i (suc r) l (insert r (libs.show_lines lines) output) intermediate
            (insert r lines outputs) laws (omega arith) (also i r lines output intermediate e w) in
        (
          output',
          outputs',
          w',
          ap
                (λ t. work libs rpcs t (
                  at libs fs ip address port files m pause i 0 r (suc l) false output intermediate
                    outputs))
                one_more
              ∙ work-goes libs rpcs (l + 1) _ _ now
              ∙ rest,
        )
