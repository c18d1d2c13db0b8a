-- ===== src/Chord/Commands.antt =====
-- The command line of Lab3_Chord/chord.go: `getFileContent` and the `switch` of `parseInput`, with
-- `CallStoreFile` and `CallLookup` of chordRPC.go. A line is taken as ASCII, so that a character is a
-- byte.
use tda596labs.Base.{
  ◌==◌, if◌then◌else◌, length, Outcome, ok, panic, ◌>>=◌, index, same, ℕ, String, false, not,
  Option, none, some, List, [], ◌∷◌,
}
use tda596labs.Chord.Types.{
  Bytes, FileStat, fileok, nosuchfile, readerr, createerr, writeerr, Chord, Response, FindRequest,
  StoreFileRequest, StoreFileResponse, RetreiveFileRequest, RetreiveFileResponse,
}
use tda596labs.Chord.Lookup.{hash_string}
use tda596labs.Chord.Calls.{resolve_identifier}
use tda596labs.Chord.Files.{DiskRead, no_such_file, read_failed, contents}
use tda596labs.Chord.Cipher.{Aead, failed, done, encrypt, decrypt}
use Prim.Native.String.{◌∷◌ as str_cons}
use Prim.Native.Char.{code}

-- `strings.Split(input, " ")`.
unfoldable pub split_blanks : String → List String
split_blanks String.[] = "" ∷ []
split_blanks (str_cons c s) = elim (split_blanks s) [
  | [] ↦ []
  | word ∷ words ↦ if code c == 32 then "" ∷ word ∷ words else str_cons c word ∷ words
]

-- `s[:len(s)-1]`.
unfoldable pub without_last : String → Outcome String
without_last String.[] = panic
without_last (str_cons c s) = elim s [
  | String.[] ↦ ok ""
  | str_cons d t ↦ without_last s >>= λ r. ok (str_cons c r)
]

-- `[]byte(s)`.
unfoldable pub bytes_of : String → Bytes
bytes_of String.[] = []
bytes_of (str_cons c s) = code c ∷ bytes_of s

-- What a command does besides its change of the state: what it prints, or the request it sends.
pub data Action : Type 0 where
  printed_help printed_hash dumped wrong_usage store_aborted not_found key_set : Action
  bad_length : ℕ → Action
  stores_file : StoreFileRequest → Action
  retreives_file : RetreiveFileRequest → Action

module _ (aead : Aead) (random : Option Bytes) (disk : String → DiskRead) (sha1 : String → ℕ) where
  -- `getFileContent`, with `none` for nil.
  unfoldable pub get_file_content : String → Bytes → Option Bytes
  get_file_content file_path key = elim (disk file_path) [
    | no_such_file ↦ none
    | read_failed ↦ none
    | contents bytes ↦ elim (encrypt aead random bytes key) [
      | failed _ ↦ none
      | done box ↦ some box
    ]
  ]

  -- The case `setpw`.
  unfoldable pub set_password : Chord → List String → Outcome (Chord × Action)
  set_password chord args = do
    word ← index args 1
    arg ← without_last word
    if not (length (bytes_of arg) == 16)
        then ok (chord, bad_length (length (bytes_of arg)))
        else ok (record chord { enc_key = bytes_of arg }, key_set)

  -- The request of the case `StoreFile`, if there is a content.
  unfoldable pub store_request : Chord → String → Option Bytes → Chord × Action
  store_request chord arg none = (chord, store_aborted)
  store_request chord arg (some file_content) = (
    chord,
    stores_file (record {
      file_identifier = hash_string sha1 arg;
      file_name = arg;
      file_content = file_content;
      duplication_req = false;
    }),
  )

  -- The case `StoreFile`.
  unfoldable pub store_command : Chord → List String → Outcome (Chord × Action)
  store_command chord args =
      if not (length args == 2)
      then ok (chord, wrong_usage)
      else (index args 1 >>= λ word. without_last word >>= λ arg.
          ok (store_request chord arg (get_file_content arg chord.enc_key)))

  -- The case `Lookup`.
  unfoldable pub lookup_command : Chord → List String → Outcome (Chord × Action)
  lookup_command chord args =
      if not (length args == 2)
      then ok (chord, wrong_usage)
      else (index args 1 >>= λ word. without_last word >>= λ arg. ok (
        chord,
        retreives_file (record { file_identifier = hash_string sha1 arg; file_name = arg }),
      ))

  -- The `switch` of `parseInput`.
  unfoldable pub run_command : Chord → List String → String → Outcome (Chord × Action)
  run_command chord args command =
      if same command "help\n"
      then ok (chord, printed_help)
      else if same command "setpw"
      then set_password chord args
      else if same command "hash\n"
      then ok (chord, printed_hash)
      else if same command "d\n"
      then ok (chord, dumped)
      else if same command "StoreFile"
      then store_command chord args
      else if same command "Lookup"
      then lookup_command chord args
      else if same command "PrintState"
      then ok (chord, dumped)
      else ok (chord, not_found)

  -- `parseInput` up to what its case does with the ring or with the tables.
  unfoldable pub read_command : Chord → String → Outcome (Chord × Action)
  read_command chord input =
      let args = split_blanks input in index args 0 >>= λ command. run_command chord args command

-- What a command that looks a file up prints.
pub data Found : Type 0 where
  unreachable decrypt_failed : Found
  not_ok : FileStat → Found
  shows : ℕ → String → Bytes → Found

module _ (sha1 : String → ℕ) (ask : ℕ → FindRequest → Option Response) where
  -- `CallStoreFile`: where the request goes, and the owner's answer, if one comes.
  unfoldable pub call_store_file :
      (String → StoreFileRequest → Option StoreFileResponse)
      → Chord
      → StoreFileRequest
      → Outcome (Option StoreFileResponse)
  call_store_file rpc chord request =
      resolve_identifier sha1 ask chord request.file_identifier >>= λ node. ok (rpc node request)

  -- `CallLookup` behind its RPC.
  unfoldable pub after_lookup : Aead → Chord → Option RetreiveFileResponse → Outcome Found
  after_lookup aead chord none = ok unreachable
  after_lookup aead chord (some response) = elim response.file_status [
    | fileok ↦ decrypt aead response.file_content chord.enc_key >>= elim [
      | failed _ ↦ ok decrypt_failed
      | done content ↦ ok (shows response.identifier response.node_address content)
    ]
    | nosuchfile ↦ ok (not_ok nosuchfile)
    | readerr ↦ ok (not_ok readerr)
    | createerr ↦ ok (not_ok createerr)
    | writeerr ↦ ok (not_ok writeerr)
  ]

  unfoldable pub call_lookup :
      Aead
      → (String → RetreiveFileRequest → Option RetreiveFileResponse)
      → Chord
      → RetreiveFileRequest
      → Outcome Found
  call_lookup aead rpc chord request =
      resolve_identifier sha1 ask chord request.file_identifier >>= λ node.
      after_lookup aead chord (rpc node request)
