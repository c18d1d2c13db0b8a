-- ===== src/Chord/StoredFiles.antt =====
-- A file that `StoreFile` of Lab3_Chord/chord.go stores_file at its owner is what `Lookup` shows.
use tda596labs.Base.{
  ◌==◌, if◌then◌else◌, length, ok, index, same, same_refl, ℕ, String, ◌≡◌, refl, ap, ◌∙◌, false,
  Option, none, some, List, [], ◌∷◌,
}
use tda596labs.Chord.Types.{
  Bytes, fileok, Chord, Response, FindRequest, StoreFileRequest, StoreFileResponse,
  RetreiveFileRequest, RetreiveFileResponse,
}
use tda596labs.Chord.Lookup.{hash_string}
use tda596labs.Chord.Calls.{resolve_identifier}
use tda596labs.Chord.Files.{
  DiskWrite, written, DiskRead, contents, FilePath, Disk, store_path, after_write, store_file,
  own_path, after_read, look_up,
}
use tda596labs.Chord.Cipher.{Aead, IsSound, done, encrypt}
use tda596labs.Chord.CipherLaws.{decrypt-encrypt}
use tda596labs.Chord.Commands.{
  split_blanks, stores_file, retreives_file, get_file_content, store_request, store_command,
  lookup_command, run_command, read_command, shows, after_lookup, call_lookup,
}
use tda596labs.Chord.CommandLaws.{
  add_char, split_blanks-cons, split_blanks-some, blank_char, without_last-append,
}
use tda596labs.Chord.CommandLine.{lookup_answer, perform, parse_input}
use Prim.Native.String.{◌∷◌ as str_cons, ◌++◌ as str_append}
use Prim.Native.Char.{code}
use text.Mathlib.TextLemmas.{cons-append, nil-append}

-- A word without blanks.
abbrev pub IsWord : String → Type 0
IsWord String.[] = Unit
IsWord (str_cons c s) = ((code c == 32) ≡ false) × IsWord s

split_blanks-IsWord : (s : String) → IsWord s → split_blanks s ≡ s ∷ []
split_blanks-IsWord String.[] h = unfold split_blanks in refl
split_blanks-IsWord (str_cons c s) h =
    split_blanks-cons c s ∙ rw (split_blanks-IsWord s h.1, h.0) refl

split_blanks-word :
    (w s : String) → IsWord w → split_blanks (str_append w (str_append " " s)) ≡ w ∷ split_blanks s
split_blanks-word String.[] s h =
    rw (nil-append (str_append " " s), cons-append blank_char "" s, nil-append s)
      (split_blanks-cons blank_char s ∙ first (split_blanks-some s))
  where
    first :
        (w : String) × (ws : List String) × (split_blanks s ≡ w ∷ ws)
        → add_char blank_char (split_blanks s) ≡ "" ∷ split_blanks s
    first (w, ws, e) = rw e refl
split_blanks-word (str_cons c w) s h = rw (cons-append c w (str_append " " s)) (
    split_blanks-cons c (str_append w (str_append " " s))
    ∙ rw (split_blanks-word w s h.1, h.0) refl)

IsWord-append : (s : String) → IsWord s → IsWord (str_append s "\n")
IsWord-append String.[] h = (refl, tt)
IsWord-append (str_cons c s) h = rw (cons-append c s "\n") (h.0, IsWord-append s h.1)

-- The line that a user types for a command on a file.
abbrev pub line_of : String → String → String
line_of command name = str_append command (str_append " " (str_append name "\n"))

line_of-split :
    (command name : String)
    → IsWord command
    → IsWord name
    → split_blanks (line_of command name) ≡ command ∷ str_append name "\n" ∷ []
line_of-split command name h g =
    split_blanks-word command (str_append name "\n") h
    ∙ ap (λ l. command ∷ l) (split_blanks-IsWord (str_append name "\n") (IsWord-append name g))

module _ (aead : Aead) (random : Option Bytes) (disk : String → DiskRead) (sha1 : String → ℕ) where
  pub store_line :
      (chord : Chord) (name : String) (plain box : Bytes)
      → IsWord name
      → disk name ≡ contents plain
      → encrypt aead random plain chord.enc_key ≡ done box
      → read_command aead random disk sha1 chord (line_of "StoreFile" name)
        ≡ ok (
          chord,
          stores_file (record {
            file_identifier = hash_string sha1 name;
            file_name = name;
            file_content = box;
            duplication_req = false;
          }),
        )
  unfolding read_command run_command store_command get_file_content index store_request
  store_line chord name plain box h e f =
      rw
        (
          line_of-split "StoreFile" name
              (refl, (refl, (refl, (refl, (refl, (refl, (refl, (refl, (refl, tt))))))))) h,
          without_last-append name,
        )
        (ap (λ o. ok (store_request aead random disk sha1 chord name o)) read)
    where
      read : get_file_content aead random disk sha1 name chord.enc_key ≡ some box
      read = rw (get_file_content, e, f) refl

  pub lookup_line :
      (chord : Chord) (name : String)
      → IsWord name
      → read_command aead random disk sha1 chord (line_of "Lookup" name)
        ≡ ok (
          chord,
          retreives_file (record { file_identifier = hash_string sha1 name; file_name = name }),
        )
  unfolding read_command run_command lookup_command index
  lookup_line chord name h =
      rw
        (
          line_of-split "Lookup" name (refl, (refl, (refl, (refl, (refl, (refl, tt)))))) h,
          without_last-append name,
        )
        refl

-- What a node that has stored a request answers to `LookUp` afterwards. `put` is what the file system
-- makes of a file that is written.
abbrev pub serves :
    (Disk → FilePath → Bytes → Disk)
    → (FilePath → Bytes → DiskWrite)
    → Disk
    → Chord
    → StoreFileRequest
    → String
    → RetreiveFileRequest
    → Option RetreiveFileResponse
serves put write before owner stored node request =
    let after = (store_file write owner stored).0 in
    let disk = put before (store_path owner stored) stored.file_content in
    if same node owner.node.node_address
    then some (
        look_up disk after request
          (record { node_address = ""; identifier = 0; file_status = fileok; file_content = [] }))
    else none

-- Let a node with a key that the cipher takes store a readable file whose name has no blank, and let
-- another node with the same key resolve the file's identifier to the node that wrote it; the file
-- system of that node takes files and gives back what was written. Then the command `Lookup` there
-- shows the owner and the content that the file had, whatever key the owner has.
pub stored_file_found :
    (aead : Aead) (random random' : Option Bytes) (disk disk' : String → DiskRead)
    (put : Disk → FilePath → Bytes → Disk) (write : FilePath → Bytes → DiskWrite) (before : Disk)
    (sha1 : String → ℕ) (ask : ℕ → FindRequest → Option Response)
    (store_rpc : String → StoreFileRequest → Option StoreFileResponse) (writer owner reader : Chord)
    (name : String) (plain box : Bytes)
    → IsSound aead
    → ((nonce : Bytes) → random ≡ some nonce → length nonce ≡ aead.nonce_size)
    → ((p : FilePath) (b : Bytes) → write p b ≡ written)
    → ((d : Disk) (p : FilePath) (b : Bytes) → put d p b p ≡ contents b)
    → IsWord name
    → disk name ≡ contents plain
    → encrypt aead random plain writer.enc_key ≡ done box
    → reader.enc_key ≡ writer.enc_key
    → resolve_identifier sha1 ask reader (hash_string sha1 name) ≡ ok owner.node.node_address
    → (stored : StoreFileRequest) × (read_command aead random disk sha1 writer
          (line_of "StoreFile" name)
        ≡ ok (writer, stores_file stored))
      × ((store_file write owner stored).1 ≡ record { file_status = fileok })
      × (parse_input aead sha1 ask store_rpc
            (serves put write before owner stored)
            random'
            disk'
            reader
            (line_of "Lookup" name)
          ≡ ok (reader, lookup_answer (shows owner.node.identifier owner.node.node_address plain)))
unfolding store_file after_write store_path look_up after_read own_path call_lookup after_lookup
    parse_input perform
stored_file_found aead random random' disk disk' put write before sha1 ask store_rpc writer owner
      reader name plain box s n takes reads h e f k r =
    let stored : StoreFileRequest = record {
      file_identifier = hash_string sha1 name;
      file_name = name;
      file_content = box;
      duplication_req = false;
    } in
    (
      stored,
      store_line aead random disk sha1 writer name plain box h e f,
      rw (takes (store_path owner stored) box) refl,
      rw
          (
            lookup_line aead random' disk' sha1 reader name h,
            r,
            same_refl owner.node.node_address,
            takes (store_path owner stored) box,
            reads before (store_path owner stored) box,
            k,
            decrypt-encrypt aead random plain box writer.enc_key s n f,
          )
          refl,
    )
