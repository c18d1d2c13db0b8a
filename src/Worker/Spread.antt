-- ===== src/Worker/Spread.antt =====
-- A reduce task of mr/worker.go whose map outputs are spread over several workers.
use tda596labs.Coordinator.Types.{WorkerLocation}
use tda596labs.Base.{
  ◌==◌, if◌then◌else◌, All, ok, ℕ, ◌%◌, ◌<◌, String, ◌≡◌, refl, sym, ap, ◌∙◌, ◌⊎◌, inl, inr, some,
  List, [], ◌∷◌, ◌++◌,
}
use tda596labs.Worker.Tasks.{KeyValue, ihash, do_reduce, own_files, other_worker, source_of}
use tda596labs.Worker.Buckets.{of_bucket}
use tda596labs.Worker.Groups.{values_of, outputs_of, one_call, do_reduce_lem}
use tda596labs.Worker.Sequential.{sequential}
use tda596labs.Worker.Agreement.{emitted, of_bucket-++, values_of-of_bucket, one_call-Perm}
use tda596labs.Worker.Process.{
  Lines, Libs, Rpcs, Disk, State, retreive_files, get_mapped_buckets, collect,
}
use tda596labs.Worker.Shuffle.{
  append_swap, append_files-Perm, values_of-Perm, Holds, append_files-Holds,
}
use tda596labs.Worker.LoneRun.{IsLawful}
use tda596labs.Worker.LoneResults.{one_call_if, sequential_lem}
use mathlib.Core.List.{Perm, append_assoc}
use mathlib.Core.List.{Permᴰ}
use mathlib.Core.Logic.{∥∥₁_elim}
use mathlib.Core.List.Perm.{refl as perm_refl, trans as perm_trans, append as perm_append}

-- A worker with map outputs: where it is, its directory, and the input files that it mapped.
pub record Site : Type 0 where
  pub location : WorkerLocation
  pub disk : Disk
  pub names : List String

abbrev pub sites_locations : List Site → List WorkerLocation
sites_locations [] = []
sites_locations (site ∷ sites) = site.location ∷ sites_locations sites

abbrev pub sites_names : List Site → List String
sites_names [] = []
sites_names (site ∷ sites) = site.names ++ sites_names sites

emitted-++ :
    (mapf : String → String → List KeyValue) (contents : String → String) (names more : List String)
    → emitted mapf contents (names ++ more)
      ≡ emitted mapf contents names ++ emitted mapf contents more
emitted-++ mapf contents [] more = refl
emitted-++ mapf contents (name ∷ names) more =
    rw
      (
        emitted-++ mapf contents names more,
        append_assoc (mapf name (contents name)) (emitted mapf contents names)
            (emitted mapf contents more),
      )
      refl

module _ {W : Type 0} (libs : Libs) (rpcs : Rpcs W) (contents : String → String) (m : ℕ)
    (s : State W) (b : ℕ) where
  -- The site is this worker, or another one under another address that answers with its files.
  abbrev pub Answers : Site → Type 0
  Answers site =
      ((source_of s.worker.worker_id s.worker.ip_address site.location.worker_id
            site.location.address
          ≡ own_files)
        × (site.disk ≡ s.disk))
      ⊎ ((source_of s.worker.worker_id s.worker.ip_address site.location.worker_id
              site.location.address
            ≡ other_worker)
          × (rpcs.get_files s.world site.location.address b
              ≡ some (get_mapped_buckets libs site.disk b)))

  abbrev pub SiteHolds : Site → Type 0
  SiteHolds site = Holds libs.sum32 m libs.mapf contents site.names site.disk.intermediate

  site-Perm :
      (site : Site)
      → IsLawful libs
      → b < m
      → SiteHolds site
      → Perm
          (retreive_files libs site.disk b)
          (of_bucket libs.sum32 m b (emitted libs.mapf contents site.names))
  unfolding retreive_files
  site-Perm site laws h d =
      rw
        (← append_files-Holds libs.sum32 m libs.mapf contents b site.names site.disk.intermediate h
          d)
        (append_files-Perm b (libs.glob site.disk.intermediate) site.disk.intermediate
          (laws.glob_keeps site.disk.intermediate))

  pub collect-Perm :
      (sites : List Site)
      → IsLawful libs
      → b < m
      → All Answers sites
      → All SiteHolds sites
      → (pairs : List KeyValue) × (collect libs rpcs s b (sites_locations sites)
          ≡ ok (s, some pairs))
        × Perm pairs (of_bucket libs.sum32 m b (emitted libs.mapf contents (sites_names sites)))
  unfolding collect get_mapped_buckets
  collect-Perm [] laws h a d = ([], refl, perm_refl _)
  collect-Perm (site ∷ sites) laws h (now, later) (d, ds) =
      let (pairs, e, p) = collect-Perm sites laws h later ds in
      let both : Perm (retreive_files libs site.disk b ++ pairs)
          (of_bucket libs.sum32 m b (emitted libs.mapf contents (sites_names (site ∷ sites)))) =
        rw
          (
            emitted-++ libs.mapf contents site.names (sites_names sites),
            of_bucket-++ libs.sum32 m b (emitted libs.mapf contents site.names)
                (emitted libs.mapf contents (sites_names sites)),
          )
          (perm_append (site-Perm site laws h d) p) in
      elim now [
        | inl (f, g) ↦ (retreive_files libs site.disk b ++ pairs, rw (collect, f, e, g) refl, both)
        | inr (f, g) ↦ (retreive_files libs site.disk b ++ pairs, rw (collect, f, g, e) refl, both)
      ]

emitted_derived :
    (mapf : String → String → List KeyValue) (contents : String → String)
    {names names' : List String}
    → Permᴰ names names'
    → Perm (emitted mapf contents names) (emitted mapf contents names')
emitted_derived mapf contents Permᴰ.nil = perm_refl _
emitted_derived mapf contents (Permᴰ.cons {a = x} {b = y} e p) =
    rw e (perm_append (perm_refl (mapf y (contents y))) (emitted_derived mapf contents p))
emitted_derived mapf contents (Permᴰ.swap {a = x} {b = y} {a' = x'} {b' = y'} {l} e f) =
    rw (e, f)
      (append_swap (mapf y' (contents y')) (mapf x' (contents x')) (emitted mapf contents l))
emitted_derived mapf contents (Permᴰ.trans p q) =
    perm_trans (emitted_derived mapf contents p) (emitted_derived mapf contents q)

pub emitted-Perm :
    (mapf : String → String → List KeyValue) (contents : String → String)
    (names names' : List String)
    → Perm names names'
    → Perm (emitted mapf contents names) (emitted mapf contents names')
emitted-Perm mapf contents names names' p = ∥∥₁_elim p (hlevel) (emitted_derived mapf contents)

-- Let the libraries be lawful and every input file be mapped by one of the sites, whose files hold
-- what the map tasks emit, and let the other sites answer. Then reduce task `b` collects all its
-- pairs, ends its loop, and its lines have for every key `k` the outputs of the sequential program if
-- `k` hashes to `b`, and none if not, however the files are spread over the workers.
pub spread_agrees :
    {W : Type 0} (libs : Libs) (rpcs : Rpcs W) (contents : String → String) (m b : ℕ) (k : String)
    (s : State W) (sites : List Site) (files : List String)
    → IsLawful libs
    → b < m
    → Perm (sites_names sites) files
    → All (Answers libs rpcs contents m s b) sites
    → All (SiteHolds libs rpcs contents m s b) sites
    → (pairs : List KeyValue) × (mine all : Lines) × (collect libs rpcs s b (sites_locations sites)
        ≡ ok (s, some pairs))
      × (do_reduce libs.sort libs.reducef pairs ≡ some mine)
      × (sequential libs.sort libs.reducef libs.mapf (λ name. some (contents name)) files
          ≡ ok (some all))
      × (outputs_of k mine ≡ (if ihash libs.sum32 k % m == b then outputs_of k all else []))
spread_agrees libs rpcs contents m b k s sites files laws h spread answers holds =
    let pairs_of = emitted libs.mapf contents in
    let (pairs, e, p) = collect-Perm libs rpcs contents m s b sites laws h answers holds in
    let (mine, vs, f, q, g) =
      do_reduce_lem libs.sort libs.reducef pairs k (laws.sort_groups pairs)
        (values_of-Perm k (libs.sort pairs) pairs (laws.sort_keeps pairs)) in
    let (all, i, j) = sequential_lem libs contents files k laws in
    let spread_values : Perm vs
        (values_of k (of_bucket libs.sum32 m b (pairs_of (sites_names sites)))) =
      perm_trans q
        (values_of-Perm k pairs (of_bucket libs.sum32 m b (pairs_of (sites_names sites))) p) in
    let same_values =
      one_call-Perm libs.reducef k (values_of k (pairs_of (sites_names sites)))
        (values_of k (pairs_of files))
        (values_of-Perm k (pairs_of (sites_names sites)) (pairs_of files)
          (emitted-Perm libs.mapf contents (sites_names sites) files spread))
        laws.reduce_unordered in
    (
      pairs,
      mine,
      all,
      e,
      f,
      i,
      g
          ∙ one_call-Perm libs.reducef k vs
              (values_of k (of_bucket libs.sum32 m b (pairs_of (sites_names sites)))) spread_values
              laws.reduce_unordered
          ∙ ap (one_call libs.reducef k)
              (values_of-of_bucket libs.sum32 m b k (pairs_of (sites_names sites)))
          ∙ one_call_if libs.reducef k (values_of k (pairs_of (sites_names sites)))
              (ihash libs.sum32 k % m == b)
          ∙ ap (λ out. if ihash libs.sum32 k % m == b then out else []) (same_values ∙ sym j),
    )
