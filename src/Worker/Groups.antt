-- ===== src/Worker/Groups.antt =====
-- The reduce task of Lab2_MapReduce/src/mr/worker.go calls the reduce function once for each key.
use tda596labs.Base.{
  if◌then◌else◌, Bool-cases, length, same, same_iff, same_refl, same_of_eq, same_ne, ℕ, zero, suc,
  ◌≤◌, String, ◌≡◌, refl, sym, ap, subst, ◌∙◌, ◌≢◌, ◌⊎◌, inl, inr, true, false, some, List, [], ◌∷◌,
  arith,
}
use tda596labs.Worker.Tasks.{KeyValue, take_key, group, reduce_lines, do_reduce}
use mathlib.Core.Option
use mathlib.Core.List.{Perm}

-- The values of a key, in order.
abbrev pub values_of : String → List KeyValue → List String
values_of key [] = []
values_of key (kv ∷ kvs) =
    if same kv.key key then kv.value ∷ values_of key kvs else values_of key kvs

abbrev pub Absent : String → List KeyValue → Type 0
Absent key [] = Unit
Absent key (kv ∷ kvs) = (same kv.key key ≡ false) × Absent key kvs

abbrev pub Starts : String → List KeyValue → Type 0
Starts key [] = ⊥
Starts key (kv ∷ kvs) = same kv.key key ≡ true

-- Pairs of one key stand next to each other, as they do in a list that is sorted by key.
abbrev pub Contiguous : List KeyValue → Type 0
Contiguous [] = Unit
Contiguous (kv ∷ kvs) = (Starts kv.key kvs ⊎ Absent kv.key kvs) × Contiguous kvs

values_of-Absent : (key : String) (kvs : List KeyValue) → Absent key kvs → values_of key kvs ≡ []
values_of-Absent key [] h = refl
values_of-Absent key (kv ∷ kvs) h = rw h.0 (values_of-Absent key kvs h.1)

length-take_key : (key : String) (kvs : List KeyValue) → length (take_key key kvs).1 ≤ length kvs
unfolding take_key
length-take_key key [] = omega arith
length-take_key key (kv ∷ kvs) = ground (arith, length-take_key key kvs)

-- A run of another key's pairs leaves the values of `k` behind it.
values_of-take_key :
    (key k : String) (kvs : List KeyValue)
    → key ≢ k
    → values_of k (take_key key kvs).1 ≡ values_of k kvs
unfolding take_key
values_of-take_key key k [] n = refl
values_of-take_key key k (kv ∷ kvs) n = elim (Bool-cases (same kv.key key)) [
  | inr e ↦ rw e
  | inl e ↦
      let f : same kv.key k ≡ false =
        same_ne kv.key k (λ g. n (sym ((same_iff kv.key key).0 e) ∙ g)) in
      rw (e, f) (values_of-take_key key k kvs n)
]

-- In a contiguous list the run at the head holds all values of its key.
abbrev TakesAll : String → List KeyValue → Type 0
TakesAll key kvs =
    (values_of key kvs ≡ (take_key key kvs).0)
    × Absent key (take_key key kvs).1
    × Contiguous (take_key key kvs).1

take_key-TakesAll :
    (key : String) (kvs : List KeyValue)
    → Contiguous kvs
    → Starts key kvs ⊎ Absent key kvs
    → TakesAll key kvs
unfolding take_key
take_key-TakesAll key [] c h = (refl, tt, tt)
take_key-TakesAll key (kv ∷ kvs) c (inr h) = rw h.0 (values_of-Absent key kvs h.1, h, c)
take_key-TakesAll key (kv ∷ kvs) c (inl h) =
    let e : kv.key ≡ key = (same_iff kv.key key).0 h in
    let (a, b, d) =
      take_key-TakesAll key kvs c.1 (subst (λ x. Starts x kvs ⊎ Absent x kvs) e c.0) in
    rw h (ap (λ l. kv.value ∷ l) a, b, d)

-- The outputs for one key in the output file.
abbrev pub outputs_of : String → List (String × String) → List String
outputs_of k [] = []
outputs_of k ((key, out) ∷ lines) =
    if same key k then out ∷ outputs_of k lines else outputs_of k lines

-- One call of the reduce function with all values, and none for a key with no values.
abbrev pub one_call : (String → List String → String) → String → List String → List String
one_call reducef k [] = []
one_call reducef k (v ∷ vs) = reducef k (v ∷ vs) ∷ []

pub take_key_head :
    (kv : KeyValue) (kvs : List KeyValue)
    → take_key kv.key (kv ∷ kvs) ≡ (kv.value ∷ (take_key kv.key kvs).0, (take_key kv.key kvs).1)
unfolding take_key
take_key_head kv kvs = rw (same_refl kv.key)

module _ (reducef : String → List String → String) where
  -- The first group and the outputs of the others give the outputs of the whole list.
  head_group :
      (kv : KeyValue) (kvs : List KeyValue) (k : String) (outputs : List String)
      → TakesAll kv.key (kv ∷ kvs)
      → outputs ≡ one_call reducef k (values_of k (take_key kv.key (kv ∷ kvs)).1)
      → (if same kv.key k then reducef kv.key (take_key kv.key (kv ∷ kvs)).0 ∷ outputs else outputs)
        ≡ one_call reducef k (values_of k (kv ∷ kvs))
  head_group kv kvs k outputs (a, b, d) f = elim (Bool-cases (same kv.key k)) [
    | inr n ↦ rw n (
        f
        ∙ ap (one_call reducef k) (
            values_of-take_key kv.key k (kv ∷ kvs) (λ g. cc (sym n ∙ same_of_eq kv.key k g))
            ∙ rw n))
    | inl y ↦
        let e : kv.key ≡ k = (same_iff kv.key k).0 y in
        let none_left : outputs ≡ [] =
          f
          ∙ ap (one_call reducef k) (
              values_of-Absent k (take_key kv.key (kv ∷ kvs)).1
                (subst (λ x. Absent x (take_key kv.key (kv ∷ kvs)).1) e b)) in
        let all : values_of k (kv ∷ kvs) ≡ (take_key kv.key (kv ∷ kvs)).0 =
          subst (λ x. values_of x (kv ∷ kvs) ≡ (take_key kv.key (kv ∷ kvs)).0) e a in
        ap (λ b. if b then reducef kv.key (take_key kv.key (kv ∷ kvs)).0 ∷ outputs else outputs) y
        ∙ ap (λ l. reducef kv.key (take_key kv.key (kv ∷ kvs)).0 ∷ l) none_left
        ∙ ap (λ x. reducef x (take_key kv.key (kv ∷ kvs)).0 ∷ []) e
        ∙ ap (λ p. reducef k p ∷ [])
            (ap (λ (r : List String × List KeyValue). r.0) (take_key_head kv kvs))
        ∙ sym (
            ap (one_call reducef k)
              (all ∙ ap (λ (r : List String × List KeyValue). r.0) (take_key_head kv kvs)))
  ]

  group_nil : (f : ℕ) → group f [] ≡ some []
  unfolding group
  group_nil zero = refl
  group_nil (suc f) = refl

  pub group_lem :
      (fuel : ℕ) (kvs : List KeyValue) (k : String)
      → length kvs ≤ fuel
      → Contiguous kvs
      → (groups : List (String × List String)) × (group fuel kvs ≡ some groups)
        × (outputs_of k (reduce_lines reducef groups) ≡ one_call reducef k (values_of k kvs))
  unfolding group reduce_lines
  group_lem fuel [] k h c = ([], group_nil fuel, refl)
  group_lem zero (kv ∷ kvs) k h c = absurd (omega arith)
  group_lem (suc fuel) (kv ∷ kvs) k h c =
      let t = take_key-TakesAll kv.key (kv ∷ kvs) c (inl (same_refl kv.key)) in
      let shorter : length (take_key kv.key (kv ∷ kvs)).1 ≤ fuel =
        rw (take_key_head kv kvs) (omega (arith, length-take_key kv.key kvs)) in
      let (groups, e, f) = group_lem fuel (take_key kv.key (kv ∷ kvs)).1 k shorter t.2 in
      (
        (kv.key, (take_key kv.key (kv ∷ kvs)).0) ∷ groups,
        ap (Option.map (λ groups. (kv.key, (take_key kv.key (kv ∷ kvs)).0) ∷ groups)) e,
        head_group kv kvs k (outputs_of k (reduce_lines reducef groups)) t f,
      )

-- If the sort leaves pairs of one key next to each other and keeps the pairs of each key, up to
-- their order, then `do_reduce` finishes its loop, and for every key `k` the output file has one
-- line with the reduce function's result on all values of `k`, in the sorted order, if the pairs
-- hold a value of `k`, and no line otherwise.
pub do_reduce_lem :
    (sort : List KeyValue → List KeyValue) (reducef : String → List String → String)
    (pairs : List KeyValue) (k : String)
    → Contiguous (sort pairs)
    → Perm (values_of k (sort pairs)) (values_of k pairs)
    → (lines : List (String × String)) × (vs : List String) × (do_reduce sort reducef pairs
        ≡ some lines)
      × Perm vs (values_of k pairs)
      × (outputs_of k lines ≡ one_call reducef k vs)
unfolding do_reduce
do_reduce_lem sort reducef pairs k c p =
    let (groups, e, f) = group_lem reducef (length (sort pairs)) (sort pairs) k (omega arith) c in
    (
      reduce_lines reducef groups,
      values_of k (sort pairs),
      ap (Option.map (reduce_lines reducef)) e,
      p,
      f,
    )
