-- ===== src/Worker/Apps.antt =====
-- The applications Lab2_MapReduce/src/mrapps/wc.go, indexer.go, nocrash.go and early_exit.go: their map
-- and reduce functions, without the pauses. `unicode.IsLetter`, `strconv.Itoa`, the sort of strings,
-- the length of a string in bytes and the order in which `range` takes the keys of a map are parameters.
use tda596labs.Base.{if◌then◌else◌, length, same, ℕ, String, Bool, List, [], ◌∷◌}
use tda596labs.Worker.Tasks.{KeyValue}
use Prim.Native.String.{◌∷◌ as str_cons, ◌++◌ as str_append}
use Prim.Native.Char.{Char}

-- A word that has begun, and the words behind it.
abbrev pub flush : String × List String → List String
flush (String.[], words) = words
flush (str_cons c word, words) = str_cons c word ∷ words

module _ (is_letter : Char → Bool) where
  -- `strings.FieldsFunc`, from the back: the letters up to the next separator, and the words behind it.
  unfoldable pub fields_from : String → String × List String
  fields_from String.[] = ("", [])
  fields_from (str_cons c s) =
      let rest = fields_from s in
      if is_letter c then (str_cons c rest.0, rest.1) else ("", flush rest)

  unfoldable pub fields_func : String → List String
  fields_func s = flush (fields_from s)

-- The loop of `Map` in wc.go over the words.
unfoldable pub count_words : List String → List KeyValue
count_words [] = []
count_words (w ∷ words) = record { key = w; value = "1" } ∷ count_words words

-- `Map` and `Reduce` of wc.go.
unfoldable pub wc_map : (Char → Bool) → String → String → List KeyValue
wc_map is_letter filename contents = count_words (fields_func is_letter contents)

unfoldable pub wc_reduce : (ℕ → String) → String → List String → String
wc_reduce itoa key values = itoa (length values)

-- The keys of `m` in indexer.go after the loop over the words.
unfoldable pub add_key : String → List String → List String
add_key w [] = w ∷ []
add_key w (key ∷ keys) = let more = add_key w keys in if same key w then key ∷ keys else key ∷ more

unfoldable pub word_set : List String → List String → List String
word_set keys [] = keys
word_set keys (w ∷ words) = word_set (add_key w keys) words

unfoldable pub each_in : String → List String → List KeyValue
each_in document [] = []
each_in document (w ∷ words) = record { key = w; value = document } ∷ each_in document words

-- `Map` and `Reduce` of indexer.go.
unfoldable pub indexer_map :
    (Char → Bool) → (List String → List String) → String → String → List KeyValue
indexer_map is_letter range document value =
    each_in document (range (word_set [] (fields_func is_letter value)))

-- `strings.Join`.
unfoldable pub join : String → List String → String
join separator [] = ""
join separator (s ∷ rest) = elim rest [
  | [] ↦ s
  | _ ∷ _ ↦ str_append s (str_append separator (join separator rest))
]

unfoldable pub indexer_reduce :
    (ℕ → String) → (List String → List String) → String → List String → String
indexer_reduce itoa sort_strings key values =
    str_append (itoa (length values)) (str_append " " (join "," (sort_strings values)))

-- `Map` and `Reduce` of nocrash.go, whose `maybeCrash` does nothing.
unfoldable pub nocrash_map : (ℕ → String) → (String → ℕ) → String → String → List KeyValue
nocrash_map itoa byte_length filename contents =
    record { key = "a"; value = filename }
    ∷ record { key = "b"; value = itoa (byte_length filename) }
    ∷ record { key = "c"; value = itoa (byte_length contents) }
    ∷ record { key = "d"; value = "xyzzy" }
    ∷ []

unfoldable pub nocrash_reduce : (List String → List String) → String → List String → String
nocrash_reduce sort_strings key values = join " " (sort_strings values)

-- `Map` and `Reduce` of early_exit.go.
unfoldable pub early_exit_map : String → String → List KeyValue
early_exit_map filename contents = record { key = filename; value = "1" } ∷ []

unfoldable pub early_exit_reduce : (ℕ → String) → String → List String → String
early_exit_reduce itoa key values = itoa (length values)
