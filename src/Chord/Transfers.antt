-- ===== src/Chord/Transfers.antt =====
-- What a node sends on when its predecessor is gone: `reassignDuplicatedToMe` of Lab3_Chord/chord.go
-- with its calls of `CallDuplication` of chordRPC.go.
-- `CallDuplication`: the successor that gets the request, and what it answers, if it does.
use tda596labs.Base.{
  ◌==◌, if◌then◌else◌, length, Outcome, ok, ◌>>=◌, ℕ, String, true, Option, none, some, List, [],
  ◌∷◌, ◌++◌,
}
use tda596labs.Chord.Types.{Chord, StoreFileRequest, StoreFileResponse}
use tda596labs.Chord.Lookup.{hash_string}
use tda596labs.Chord.Files.{DiskRead, no_such_file, read_failed, contents, duplication_target}

unfoldable pub call_duplication :
    (String → StoreFileRequest → Option StoreFileResponse)
    → Chord
    → StoreFileRequest
    → Outcome (Option (String × Option StoreFileResponse))
call_duplication rpc chord request = duplication_target chord >>= λ target. elim target [
  | none ↦ ok none
  | some succ ↦ ok (some (succ, rpc succ request))
]

module _ (sha1 : String → ℕ) (disk : String → DiskRead) where
  -- The loop over the entries of the directory of replicated files; `disk` is what a file reads as
  -- when it is in its new place. An entry that cannot be read is passed over.
  unfoldable pub duplicates : List String → List StoreFileRequest
  duplicates [] = []
  duplicates (entry ∷ entries) =
      let rest = duplicates entries in
      elim (disk entry) [
        | no_such_file ↦ rest
        | read_failed ↦ rest
        | contents bytes ↦
            record {
              file_identifier = hash_string sha1 entry;
              file_name = entry;
              file_content = bytes;
              duplication_req = true;
            }
            ∷ rest
      ]

  -- Each request goes through `CallDuplication`.
  unfoldable pub send_duplicates :
      (String → StoreFileRequest → Option StoreFileResponse)
      → Chord
      → List StoreFileRequest
      → Outcome (List (String × StoreFileRequest))
  send_duplicates rpc chord [] = ok []
  send_duplicates rpc chord (request ∷ requests) = do
    sent ← call_duplication rpc chord request
    rest ← send_duplicates rpc chord requests
    ok (elim sent [ none ↦ rest | some s ↦ (s.0, request) ∷ rest ])

  -- `reassignDuplicatedToMe`; `entries` is what `os.ReadDir` lists.
  unfoldable pub reassign_duplicated :
      (String → StoreFileRequest → Option StoreFileResponse)
      → List String
      → Chord
      → Outcome (Chord × List (String × StoreFileRequest))
  reassign_duplicated rpc entries chord =
      if length chord.replicated_files == 0
      then ok (chord, [])
      else (send_duplicates rpc chord (duplicates entries) >>= λ sent. ok (
        record chord { files = chord.files ++ chord.replicated_files; replicated_files = [] },
        sent,
      ))
