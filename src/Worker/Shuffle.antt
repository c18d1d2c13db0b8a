-- ===== src/Worker/Shuffle.antt =====
-- The files that the map tasks of mr/worker.go leave, and what a glob over them gives a reduce task.
use tda596labs.Base.{
  ◌==◌, Bool-cases, length, get_elem?, All, ok, Returns, returned, same, ℕ, zero, suc, ◌<◌, String,
  ◌≡◌, refl, subst, inl, inr, false, some, List, [], ◌∷◌, ◌++◌, arith,
}
use tda596labs.Base.IntMap.{IntMap, insert}
use tda596labs.Worker.Tasks.{KeyValue, do_map}
use tda596labs.Worker.Buckets.{of_bucket, do_map_lem}
use tda596labs.Worker.Groups.{values_of}
use tda596labs.Worker.Agreement.{emitted, of_bucket-++}
use tda596labs.Worker.Process.{Buckets, bucket_file, append_files}
use mathlib.Core.List.{Perm, perm_append_comm, append_assoc}
use mathlib.Core.List.{Permᴰ}
use mathlib.Core.List.Perm.{refl as perm_refl, trans as perm_trans, append_right, append_left}
use mathlib.Core.Logic.{∥∥₁_elim}

pub append_swap {ℓ} : {A : Type ℓ} (x y z : List A) → Perm (x ++ (y ++ z)) (y ++ (x ++ z))
append_swap x y z =
    rw (← append_assoc x y z, ← append_assoc y x z) (append_right z (perm_append_comm x y))

-- The order in which a glob names the files does not change what they hold together.
append_files_derived :
    (b : ℕ) {files files' : IntMap Buckets}
    → Permᴰ files files'
    → Perm (append_files b files) (append_files b files')
unfolding append_files
append_files_derived b Permᴰ.nil = perm_refl _
append_files_derived b (Permᴰ.cons {a = x} {b = y} {l₁} {l₂} e p) =
    rw e (append_left (bucket_file b y.1) (append_files_derived b p))
append_files_derived b (Permᴰ.swap {a = x} {b = y} {a' = x'} {b' = y'} {l} e f) =
    rw (e, f) (append_swap (bucket_file b y'.1) (bucket_file b x'.1) (append_files b l))
append_files_derived b (Permᴰ.trans p q) =
    perm_trans (append_files_derived b p) (append_files_derived b q)

pub append_files-Perm :
    (b : ℕ) (files files' : IntMap Buckets)
    → Perm files files'
    → Perm (append_files b files) (append_files b files')
append_files-Perm b files files' p = ∥∥₁_elim p (hlevel) (append_files_derived b)

values_of_derived :
    (k : String) {kvs kvs' : List KeyValue}
    → Permᴰ kvs kvs'
    → Perm (values_of k kvs) (values_of k kvs')
values_of_derived k Permᴰ.nil = perm_refl _
values_of_derived k (Permᴰ.cons {a = x} {b = y} e p) = rw e (elim (Bool-cases (same y.key k)) [
  | inl h ↦ rw h (append_left (y.value ∷ []) (values_of_derived k p))
  | inr h ↦ rw h (values_of_derived k p)
])
values_of_derived k (Permᴰ.swap {a = x} {b = y} {a' = x'} {b' = y'} {l} e f) =
    rw (e, f)
      (elim (Bool-cases (same x'.key k)) [
        | inl h ↦ elim (Bool-cases (same y'.key k)) [
          | inl g ↦ rw (h, g) (append_swap (y'.value ∷ []) (x'.value ∷ []) (values_of k l))
          | inr g ↦ rw (h, g) (perm_refl _)
        ]
        | inr h ↦ elim (Bool-cases (same y'.key k)) [
          | inl g ↦ rw (h, g) (perm_refl _)
          | inr g ↦ rw (h, g) (perm_refl _)
        ]
      ])
values_of_derived k (Permᴰ.trans p q) = perm_trans (values_of_derived k p) (values_of_derived k q)

pub values_of-Perm :
    (k : String) (kvs kvs' : List KeyValue)
    → Perm kvs kvs'
    → Perm (values_of k kvs) (values_of k kvs')
values_of-Perm k kvs kvs' p = ∥∥₁_elim p (hlevel) (values_of_derived k)

module _ (sum32 : String → ℕ) (m : ℕ) where
  -- The files of one map task hold its pairs by bucket.
  abbrev pub Split : List KeyValue → Buckets → Type 0
  Split pairs buckets = (b : ℕ) → b < m → bucket_file b buckets ≡ of_bucket sum32 m b pairs

  bucket_file-get :
      (b : ℕ) (buckets : Buckets) (kvs : List KeyValue)
      → get_elem? buckets b ≡ some kvs
      → bucket_file b buckets ≡ kvs
  bucket_file-get b [] kvs e = cc
  bucket_file-get zero (x ∷ buckets) kvs e = cc
  bucket_file-get (suc b) (x ∷ buckets) kvs e = bucket_file-get b buckets kvs e

  pub do_map-Split :
      (pairs : List KeyValue)
      → 0 < m
      → (buckets : Buckets) × (do_map sum32 m pairs ≡ ok buckets) × Split pairs buckets
  do_map-Split pairs h =
      let (out, e, counted) = returned _ (do_map sum32 m pairs) (do_map_lem sum32 m 0 pairs h) in
      (
        out,
        e,
        λ b lt.
            bucket_file-get b out (of_bucket sum32 m b pairs)
              (subst
                (λ o.
                  Returns o (λ out.
                    (length out ≡ m) × (get_elem? out b ≡ some (of_bucket sum32 m b pairs))))
                e (do_map_lem sum32 m b pairs lt)).1,
      )

  module _ (mapf : String → String → List KeyValue) (contents : String → String) where
    -- The directory after the map tasks for these input files.
    abbrev pub Holds : List String → IntMap Buckets → Type 0
    Holds [] [] = Unit
    Holds [] (file ∷ files) = ⊥
    Holds (name ∷ names) [] = ⊥
    Holds (name ∷ names) ((job, buckets) ∷ files) =
        Split (mapf name (contents name)) buckets × Holds names files

    pub append_files-Holds :
        (b : ℕ) (names : List String) (files : IntMap Buckets)
        → b < m
        → Holds names files
        → append_files b files ≡ of_bucket sum32 m b (emitted mapf contents names)
    unfolding append_files
    append_files-Holds b [] [] lt h = refl
    append_files-Holds b [] (file ∷ files) lt h = absurd h
    append_files-Holds b (name ∷ names) [] lt h = absurd h
    append_files-Holds b (name ∷ names) ((job, buckets) ∷ files) lt (s, h) = rw (
      s b lt,
      append_files-Holds b names files lt h,
      of_bucket-++ sum32 m b (mapf name (contents name)) (emitted mapf contents names),
    )

    pub Holds-append :
        (names : List String) (files : IntMap Buckets) (name : String) (job : ℕ) (buckets : Buckets)
        → Holds names files
        → Split (mapf name (contents name)) buckets
        → Holds (names ++ name ∷ []) (files ++ (job, buckets) ∷ [])
    Holds-append [] [] name job buckets h s = (s, tt)
    Holds-append [] (file ∷ files) name job buckets h s = absurd h
    Holds-append (x ∷ names) [] name job buckets h s = absurd h
    Holds-append (x ∷ names) ((j, bs) ∷ files) name job buckets (g, h) s =
        (g, Holds-append names files name job buckets h s)

pub insert_last {ℓ} :
    {V : Type ℓ} (i : ℕ) (v : V) (entries : IntMap V)
    → All (λ e. e.0 < i) entries
    → insert i v entries ≡ entries ++ (i, v) ∷ []
unfolding insert
insert_last i v [] h = refl
insert_last i v ((j, w) ∷ entries) h =
    let apart : (j == i) ≡ false = ground (arith, h.0) in rw (apart, insert_last i v entries h.1)
