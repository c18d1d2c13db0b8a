-- ===== src/Chord/CommandRuns.antt =====
-- The commands of `parseInput` of Lab3_Chord/chord.go on every line that a terminal gives.
use tda596labs.Base.{
  ◌==◌, Bool-cases, length, ok, panic, index, Returns, same, same_iff, ℕ, ◌<◌, String, ◌≡◌, refl,
  sym, ap, subst, ◌≢◌, ◌⊎◌, inl, inr, true, Option, none, some, List, [], ◌∷◌, arith,
}
use tda596labs.Chord.Ring.{hash_mod, mod_ring}
use tda596labs.Chord.Types.{Bytes, Chord}
use tda596labs.Chord.Lookup.{hash_string}
use tda596labs.Chord.Files.{DiskRead}
use tda596labs.Chord.Cipher.{Aead}
use tda596labs.Chord.Commands.{
  split_blanks, without_last, bytes_of, Action, key_set, stores_file, retreives_file,
  get_file_content, set_password, store_request, store_command, lookup_command, run_command,
  read_command,
}
use tda596labs.Chord.CommandLaws.{
  split_blanks-some, Ends, split_blanks-Ends, without_last-append, without_last_ok, last_code,
  last_code-append,
}
use Prim.Native.String.{◌++◌ as str_append}

-- The identifier that is looked for lies on the ring.
abbrev pub Fits : Action → Type 0
Fits (stores_file request) = request.file_identifier < hash_mod
Fits (retreives_file request) = request.file_identifier < hash_mod
Fits _ = Unit

-- A command changes nothing of the node but the key, and that only to one of 16 bytes.
abbrev pub Keeps : Chord → Chord × Action → Type 0
Keeps chord r =
    (r.0 ≡ record chord { enc_key = r.0.enc_key })
    × ((r.0.enc_key ≡ chord.enc_key) ⊎ ((r.1 ≡ key_set) × (length r.0.enc_key ≡ 16)))
    × Fits r.1

hash_string-below : (sha1 : String → ℕ) (s : String) → hash_string sha1 s < hash_mod
unfolding hash_string mod_ring
hash_string-below sha1 s = omega arith

module _ (aead : Aead) (random : Option Bytes) (disk : String → DiskRead) (sha1 : String → ℕ)
    (chord : Chord) where
  set_password-Keeps :
      (words : List String)
      → Ends ("setpw" ∷ words)
      → index ("setpw" ∷ words) 1 ≢ ok ""
      → Returns (set_password aead random disk sha1 chord ("setpw" ∷ words)) (Keeps chord)
  unfolding set_password index
  set_password-Keeps [] (v, e) n = absurd (ground (arith, last_code-append v, ap last_code e))
  set_password-Keeps (word ∷ words) h n =
      let (arg, e) = without_last_ok word (λ f. n (ap ok f)) in
      elim (Bool-cases (length (bytes_of arg) == 16)) [
        | inl b ↦ rw (e, b) (refl, inr (refl, ground arith), tt)
        | inr b ↦ rw (e, b) (refl, inl refl, tt)
      ]

  second_word :
      (words : List String)
      → Ends words
      → (length words == 2) ≡ true
      → (word arg : String) × (index words 1 ≡ ok word) × (without_last word ≡ ok arg)
  unfolding index
  second_word [] h e = absurd h
  second_word (x ∷ []) h e = absurd (ground arith)
  second_word (x ∷ y ∷ []) (v, f) e = (y, v, refl, rw f (without_last-append v))
  second_word (x ∷ y ∷ z ∷ words) h e = absurd (ground arith)

  store_request-Keeps :
      (arg : String) (content : Option Bytes)
      → Keeps chord (store_request aead random disk sha1 chord arg content)
  unfolding store_request
  store_request-Keeps arg none = (refl, inl refl, tt)
  store_request-Keeps arg (some box) = (refl, inl refl, hash_string-below sha1 arg)

  store_command-Keeps :
      (words : List String)
      → Ends words
      → Returns (store_command aead random disk sha1 chord words) (Keeps chord)
  unfolding store_command
  store_command-Keeps words h = elim (Bool-cases (length words == 2)) [
    | inr b ↦ rw b (refl, inl refl, tt)
    | inl b ↦
        let (word, arg, f, g) = second_word words h b in
        rw (b, f, g)
          (store_request-Keeps arg (get_file_content aead random disk sha1 arg chord.enc_key))
  ]

  lookup_command-Keeps :
      (words : List String)
      → Ends words
      → Returns (lookup_command aead random disk sha1 chord words) (Keeps chord)
  unfolding lookup_command
  lookup_command-Keeps words h = elim (Bool-cases (length words == 2)) [
    | inr b ↦ rw b (refl, inl refl, tt)
    | inl b ↦
        let (word, arg, f, g) = second_word words h b in
        rw (b, f, g) (refl, inl refl, hash_string-below sha1 arg)
  ]

  run_command-Keeps :
      (w : String) (words : List String)
      → Ends (w ∷ words)
      → index (w ∷ words) 1 ≢ ok ""
      → Returns (run_command aead random disk sha1 chord (w ∷ words) w) (Keeps chord)
  unfolding run_command
  run_command-Keeps w words h n = elim (Bool-cases (same w "help\n")) [
    | inl a ↦ rw a (refl, inl refl, tt)
    | inr a ↦ elim (Bool-cases (same w "setpw")) [
      | inl b ↦
          let is_setpw : w ≡ "setpw" = (same_iff w "setpw").0 b in
          rw (a, b)
            (subst
              (λ x. Returns (set_password aead random disk sha1 chord (x ∷ words)) (Keeps chord))
              (sym is_setpw)
              (set_password-Keeps words (subst (λ x. Ends (x ∷ words)) is_setpw h)
                (subst (λ x. index (x ∷ words) 1 ≢ ok "") is_setpw n)))
      | inr b ↦
          rw (a, b)
            (elim (Bool-cases (same w "hash\n")) [
              | inl c ↦ rw c (refl, inl refl, tt)
              | inr c ↦ rw c (elim (Bool-cases (same w "d\n")) [
                | inl d ↦ rw d (refl, inl refl, tt)
                | inr d ↦ rw d (elim (Bool-cases (same w "StoreFile")) [
                  | inl e ↦ rw e (store_command-Keeps (w ∷ words) h)
                  | inr e ↦ rw e (elim (Bool-cases (same w "Lookup")) [
                    | inl f ↦ rw f (lookup_command-Keeps (w ∷ words) h)
                    | inr f ↦ rw f (elim (Bool-cases (same w "PrintState")) [
                      | inl g ↦ rw g (refl, inl refl, tt)
                      | inr g ↦ rw g (refl, inl refl, tt)
                    ])
                  ])
                ])
              ])
            ])
    ]
  ]

  -- Every line whose second word is not empty is read, and keeps the node up to its key.
  pub read_command-Keeps :
      (line : String)
      → index (split_blanks (str_append line "\n")) 1 ≢ ok ""
      → Returns (read_command aead random disk sha1 chord (str_append line "\n")) (Keeps chord)
  unfolding read_command index
  read_command-Keeps line n =
      let (w, ws, e) = split_blanks-some (str_append line "\n") in
      rw e (
        run_command-Keeps w ws (subst Ends e (split_blanks-Ends line))
          (subst (λ words. index words 1 ≢ ok "") e n))

  -- `setpw` with two blanks behind it: the second word is empty, and its last byte is cut off.
  pub setpw_panics :
      (input : String) (words : List String)
      → split_blanks input ≡ "setpw" ∷ "" ∷ words
      → read_command aead random disk sha1 chord input ≡ panic
  unfolding read_command index run_command set_password without_last
  setpw_panics input words e = rw e refl
