-- ===== src/Worker/IndexLaws.antt =====
-- Lab2_MapReduce/src/mrapps/indexer.go names each document once for each of its words.
use tda596labs.Base.{
  ◌==◌, if◌then◌else◌, Bool-cases, replicate, same, same_iff, same_of_eq, ℕ, zero, suc, String, ◌≡◌,
  refl, sym, ap, ◌∙◌, ◌⊎◌, inl, inr, Bool, true, false, ◌&&◌, List, [], ◌∷◌, arith,
}
use tda596labs.Worker.Groups.{values_of}
use tda596labs.Worker.Apps.{fields_func, add_key, word_set, each_in, indexer_map}
use tda596labs.Worker.AppLaws.{occurrences}
use Prim.Native.Char.{Char}

add_key-occurrences :
    (k w : String) (keys : List String)
    → occurrences k (add_key w keys)
      ≡ (if same w k && (occurrences k keys == 0) then 1 else occurrences k keys)
unfolding add_key
add_key-occurrences k w [] = ground arith
add_key-occurrences k w (key ∷ keys) = elim (Bool-cases (same key w)) [
  | inl y ↦
      let e : same key k ≡ same w k = ap (λ x. same x k) ((same_iff key w).0 y) in
      rw (y, e) (ground arith)
  | inr n ↦
      let apart : (same key k && same w k) ≡ false =
        distinct n (Bool-cases (same key k)) (Bool-cases (same w k)) in
      rw n (ground (arith, add_key-occurrences k w keys, apart))
]
  where
    distinct :
        same key w ≡ false
        → (same key k ≡ true) ⊎ (same key k ≡ false)
        → (same w k ≡ true) ⊎ (same w k ≡ false)
        → (same key k && same w k) ≡ false
    distinct n (inr a) b = rw a refl
    distinct n (inl a) (inr b) = rw (a, b) refl
    distinct n (inl a) (inl b) =
        absurd (cc (n, same_of_eq key w ((same_iff key k).0 a ∙ sym ((same_iff w k).0 b))))

-- A word that occurs is one key of the map, and any other none.
word_set-occurrences :
    (k : String) (keys words : List String)
    → occurrences k (word_set keys words) ≡ (
        if occurrences k keys == 0
        then (if occurrences k words == 0 then 0 else 1)
        else occurrences k keys)
unfolding word_set
word_set-occurrences k keys [] = ground arith
word_set-occurrences k keys (w ∷ words) =
    ground (arith, word_set-occurrences k (add_key w keys) words, add_key-occurrences k w keys)

values_of-each_in :
    (k document : String) (words : List String)
    → values_of k (each_in document words) ≡ replicate (occurrences k words) document
unfolding each_in
values_of-each_in k document [] = refl
values_of-each_in k document (w ∷ words) = elim (Bool-cases (same w k)) [
  | inl e ↦ rw (e, values_of-each_in k document words) refl
  | inr e ↦ rw (e, values_of-each_in k document words) refl
]

-- In whatever order `range` takes the keys of the map, the pairs of `Map` hold the document exactly
-- once for a word that occurs in the text, and not at all for any other.
pub indexer_map_once :
    (is_letter : Char → Bool) (range : List String → List String) (document text k : String)
    → ((key : String) (keys : List String) → occurrences key (range keys) ≡ occurrences key keys)
    → values_of k (indexer_map is_letter range document text)
      ≡ (if occurrences k (fields_func is_letter text) == 0 then [] else document ∷ [])
unfolding indexer_map
indexer_map_once is_letter range document text k h =
    let words = fields_func is_letter text in
    let named = word_set-occurrences k [] words in
    values_of-each_in k document (range (word_set [] words))
    ∙ ap (λ n. replicate n document) (h k (word_set [] words) ∙ named)
    ∙ once (occurrences k words)
  where
    once :
        (n : ℕ)
        → replicate (if n == 0 then 0 else 1) document ≡ (if n == 0 then [] else document ∷ [])
    once zero = refl
    once (suc n) = let some_there : (suc n == 0) ≡ false = ground arith in rw some_there refl
