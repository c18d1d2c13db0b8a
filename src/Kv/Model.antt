-- ===== src/Kv/Model.antt =====
-- The sequential specification of the key-value labs, Lab2_MapReduce/src/models/kv.go: `KvModel`. Of an
-- operation of a history only what the model reads is kept, its input and its output.
use tda596labs.Base.{
  ◌==◌, if◌then◌else◌, Bool-cases, same, same_iff, same_of_eq, ℕ, String, ◌≡◌, refl, sym, ap, ◌∙◌,
  inl, inr, Bool, true, false, List, [], ◌∷◌, ◌++◌,
}
use Prim.Native.String.{◌++◌ as str_append}
use mathlib.Core.List.{append-nil, append_assoc}

pub record KvInput : Type 0 where
  pub op : ℕ
  pub key : String
  pub value : String

pub record KvOutput : Type 0 where
  pub value : String

pub record Operation : Type 0 where
  pub input : KvInput
  pub output : KvOutput

-- `Step` on the value of one key: whether the output fits, and the value afterwards.
unfoldable pub step_value : String → KvInput → KvOutput → Bool × String
step_value st inp out =
    if inp.op == 0
    then (same out.value st, st)
    else if inp.op == 1
    then (true, inp.value)
    else (true, str_append st inp.value)

-- `m[key] = append(m[key], v)`.
unfoldable pub add_operation :
    String → Operation → List (String × List Operation) → List (String × List Operation)
add_operation key v [] = (key, v ∷ []) ∷ []
add_operation key v ((other, ops) ∷ m) =
    let more = add_operation key v m in
    if same other key then (other, ops ++ v ∷ []) ∷ m else (other, ops) ∷ more

-- The first loop of `Partition`.
unfoldable pub by_key :
    List Operation → List (String × List Operation) → List (String × List Operation)
by_key [] m = m
by_key (v ∷ history) m = by_key history (add_operation v.input.key v m)

-- `m[k]`, with nil for a key that is missing.
unfoldable pub operations_at : List (String × List Operation) → String → List Operation
operations_at [] k = []
operations_at ((other, ops) ∷ m) k = if same other k then ops else operations_at m k

abbrev pub keys_of : List (String × List Operation) → List String
keys_of [] = []
keys_of ((key, ops) ∷ m) = key ∷ keys_of m

-- The second loop of `Partition`.
unfoldable pub groups_at : List (String × List Operation) → List String → List (List Operation)
groups_at m [] = []
groups_at m (k ∷ keys) = operations_at m k ∷ groups_at m keys

-- `Partition`; `sort` is `sort.Strings`.
unfoldable pub partition : (List String → List String) → List Operation → List (List Operation)
partition sort history = let m = by_key history [] in groups_at m (sort (keys_of m))

-- The operations of a history on one key, in order.
abbrev pub on_key : String → List Operation → List Operation
on_key k [] = []
on_key k (v ∷ history) =
    let rest = on_key k history in if same v.input.key k then v ∷ rest else rest

add_operation-at :
    (key k : String) (v : Operation) (m : List (String × List Operation))
    → operations_at (add_operation key v m) k
      ≡ (if same key k then operations_at m k ++ v ∷ [] else operations_at m k)
unfolding add_operation operations_at
add_operation-at key k v [] = elim (Bool-cases (same key k)) [
  | inl e ↦ rw e refl
  | inr e ↦ rw e refl
]
add_operation-at key k v ((other, ops) ∷ m) = elim (Bool-cases (same other key)) [
  | inl y ↦
      let e : same other k ≡ same key k = ap (λ x. same x k) ((same_iff other key).0 y) in
      rw (y, e) (elim (Bool-cases (same key k)) [ inl f ↦ rw f refl | inr f ↦ rw f refl ])
  | inr n ↦ rw n (elim (Bool-cases (same other k)) [
    | inl f ↦
        let apart : same key k ≡ false = elim (Bool-cases (same key k)) [
          | inr g ↦ g
          | inl g ↦
              absurd
                (cc (n, same_of_eq other key ((same_iff other k).0 f ∙ sym ((same_iff key k).0 g))))
        ] in
        rw (f, apart) refl
    | inr f ↦ rw f (add_operation-at key k v m)
  ])
]

by_key-at :
    (k : String) (history : List Operation) (m : List (String × List Operation))
    → operations_at (by_key history m) k ≡ operations_at m k ++ on_key k history
unfolding by_key
by_key-at k [] m = sym (append-nil (operations_at m k))
by_key-at k (v ∷ history) m =
    by_key-at k history (add_operation v.input.key v m) ∙ elim (Bool-cases (same v.input.key k)) [
      | inl e ↦
          rw (add_operation-at v.input.key k v m, e)
            (append_assoc (operations_at m k) (v ∷ []) (on_key k history))
      | inr e ↦ rw (add_operation-at v.input.key k v m, e) refl
    ]

-- What `Partition` should give for a list of keys.
abbrev pub histories_of : List Operation → List String → List (List Operation)
histories_of history [] = []
histories_of history (k ∷ keys) = on_key k history ∷ histories_of history keys

-- `Partition` gives, for each key that its first loop collects, in sorted order, the operations of the
-- history on that key in their order.
pub partition_lem :
    (sort : List String → List String) (history : List Operation)
    → partition sort history ≡ histories_of history (sort (keys_of (by_key history [])))
unfolding partition groups_at operations_at
partition_lem sort history = each (sort (keys_of (by_key history [])))
  where
    each : (keys : List String) → groups_at (by_key history []) keys ≡ histories_of history keys
    each [] = refl
    each (k ∷ keys) = rw (by_key-at k history [], each keys) refl
