-- ===== src/Chord/TransferLaws.antt =====
-- The files of a dead predecessor in Lab3_Chord/chord.go become the node's own, and each is sent on.
use tda596labs.Base.{
  ◌==◌, Bool-cases, length, ok, ℕ, String, ◌≡◌, refl, sym, ap, inl, inr, true, Option, some, List,
  [], ◌∷◌, ◌++◌, arith,
}
use tda596labs.Chord.Types.{Chord, StoreFileRequest, StoreFileResponse}
use tda596labs.Chord.Lookup.{hash_string}
use tda596labs.Chord.Files.{DiskRead, contents, duplication_target}
use tda596labs.Chord.Transfers.{call_duplication, duplicates, send_duplicates, reassign_duplicated}
use mathlib.Core.List.{append-nil}

abbrev pub names_of : List (String × StoreFileRequest) → List String
names_of [] = []
names_of ((to, request) ∷ sent) = request.file_name ∷ names_of sent

-- All requests go to one node, as duplicates with the content on the disk.
abbrev pub Sent : (String → DiskRead) → String → List (String × StoreFileRequest) → Type 0
Sent disk succ [] = Unit
Sent disk succ ((to, request) ∷ sent) =
    (to ≡ succ)
    × (request.duplication_req ≡ true)
    × (disk request.file_name ≡ contents request.file_content)
    × Sent disk succ sent

abbrev pub Readable : (String → DiskRead) → List String → Type 0
Readable disk [] = Unit
Readable disk (entry ∷ entries) =
    ((bytes : List ℕ) × (disk entry ≡ contents bytes)) × Readable disk entries

module _ (sha1 : String → ℕ) (disk : String → DiskRead)
    (rpc : String → StoreFileRequest → Option StoreFileResponse) (chord : Chord) where
  sends_all :
      (succ : String) (entries : List String)
      → duplication_target chord ≡ ok (some succ)
      → Readable disk entries
      → (sent : List (String × StoreFileRequest)) × (send_duplicates sha1 disk rpc chord
            (duplicates sha1 disk entries)
          ≡ ok sent)
        × (names_of sent ≡ entries)
        × Sent disk succ sent
  unfolding send_duplicates duplicates call_duplication
  sends_all succ [] e r = ([], refl, refl, tt)
  sends_all succ (entry ∷ entries) e ((bytes, f), r) =
      let (sent, g, h, s) = sends_all succ entries e r in
      let request : StoreFileRequest = record {
        file_identifier = hash_string sha1 entry;
        file_name = entry;
        file_content = bytes;
        duplication_req = true;
      } in
      let one : duplicates sha1 disk (entry ∷ entries) ≡ request ∷ duplicates sha1 disk entries =
        rw (duplicates, f) refl in
      ((succ, request) ∷ sent, rw (one, e, g) refl, ap (λ l. entry ∷ l) h, (refl, refl, f, s))

  -- Let the directory list the replicated files, all readable, and the node have another node as its
  -- first successor. Then the replicated files are appended to the node's own, none stays replicated,
  -- and each is sent once, in order, to that successor, as a duplicate with its content.
  pub reassign_duplicated_lem :
      (succ : String)
      → duplication_target chord ≡ ok (some succ)
      → Readable disk chord.replicated_files
      → (sent : List (String × StoreFileRequest)) × (chord' : Chord) × (reassign_duplicated sha1
            disk rpc chord.replicated_files chord
          ≡ ok (chord', sent))
        × (chord'.files ≡ chord.files ++ chord.replicated_files)
        × (chord'.replicated_files ≡ [])
        × (names_of sent ≡ chord.replicated_files)
        × Sent disk succ sent
  unfolding reassign_duplicated
  reassign_duplicated_lem succ e r =
      let (sent, g, h, s) = sends_all succ chord.replicated_files e r in
      elim (Bool-cases (length chord.replicated_files == 0)) [
        | inr b ↦ (
          sent,
          record chord { files = chord.files ++ chord.replicated_files; replicated_files = [] },
          rw (b, g) refl,
          refl,
          refl,
          h,
          s,
        )
        | inl b ↦
            let none_there : chord.replicated_files ≡ [] = empty chord.replicated_files b in
            (
              [],
              chord,
              rw b refl,
              sym (rw none_there (append-nil chord.files)),
              none_there,
              sym none_there,
              tt,
            )
      ]
    where
      empty : (l : List String) → (length l == 0) ≡ true → l ≡ []
      empty [] h = refl
      empty (x ∷ l) h = absurd (ground arith)
