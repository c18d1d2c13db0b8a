-- ===== src/Chord/FileLaws.antt =====
-- What the handlers of Lab3_Chord/chord.go do with files.
use tda596labs.Base.{
  if◌then◌else◌, Bool-cases, same, ℕ, suc, ◌+◌, String, ◌≡◌, refl, ◌≢◌, ◌↔◌, ◌⊎◌, inl, inr, true,
  Option, none, some, List, [], ◌∷◌, ◌++◌, arith,
}
use tda596labs.Chord.Types.{Bytes, fileok, Chord, StoreFileRequest, StoreFileResponse}
use tda596labs.Chord.Files.{
  DiskWrite, written, create_failed, write_failed, own_files, replicated_files, FilePath,
  store_path, after_write, store_file,
}

-- How often a name stands in a list.
abbrev pub times : String → List String → ℕ
times x [] = 0
times x (s ∷ ss) = if same s x then suc (times x ss) else times x ss

times-append : (x : String) (xs ys : List String) → times x (xs ++ ys) ≡ times x xs + times x ys
times-append x [] ys = omega arith
times-append x (s ∷ xs) ys = ground (arith, times-append x xs ys)

abbrev pub names : List StoreFileRequest → List String
names [] = []
names (r ∷ rs) = r.file_name ∷ names rs

-- A duplicated request is sent on by no node that handles it, whatever its disk does.
after_write-stops :
    (d : DiskWrite) (chord : Chord) (request : StoreFileRequest)
    → request.duplication_req ≡ true
    → (after_write d chord request).2 ≡ none
unfolding after_write
after_write-stops written chord request e = rw e refl
after_write-stops create_failed chord request e = refl
after_write-stops write_failed chord request e = refl

-- What `StoreFile` does, by what the disk does with the file.
abbrev pub Stored :
    DiskWrite
    → Chord
    → StoreFileRequest
    → Chord × StoreFileResponse × Option StoreFileRequest
    → Type 0
Stored d chord request r =
    ((r.1.file_status ≡ fileok) ↔ (d ≡ written))
    × ((d ≡ written) ⊎ (r.0 ≡ chord))
    × ((d ≢ written)
        ⊎ (if request.duplication_req
            then (r.0.files ≡ chord.files)
              × (r.0.replicated_files ≡ chord.replicated_files ++ request.file_name ∷ [])
            else (r.0.files ≡ chord.files ++ request.file_name ∷ [])
              × (r.0.replicated_files ≡ chord.replicated_files)))
    × ((r.2 ≡ none) ↔ ((d ≢ written) ⊎ (request.duplication_req ≡ true)))
    × ((r.2 ≡ none) ⊎ (r.2 ≡ some (record request { duplication_req = true })))

after_write-Stored :
    (d : DiskWrite) (chord : Chord) (request : StoreFileRequest)
    → Stored d chord request (after_write d chord request)
unfolding after_write
after_write-Stored written chord request = elim (Bool-cases request.duplication_req) [
  | inl e ↦
      rw e
        ((λ _. refl, λ _. refl), inl refl, inr (refl, refl), (λ _. inr refl, λ _. refl), inl refl)
  | inr e ↦ rw e (
    (λ _. refl, λ _. refl),
    inl refl,
    inr (refl, refl),
    (λ f. cc, elim [ inl n ↦ absurd (n refl) | inr f ↦ cc ]),
    inr refl,
  )
]
after_write-Stored create_failed chord request =
    ((λ e. cc, λ e. cc), inr refl, inl (λ e. cc), (λ _. inl (λ e. cc), λ _. refl), inl refl)
after_write-Stored write_failed chord request =
    ((λ e. cc, λ e. cc), inr refl, inl (λ e. cc), (λ _. inl (λ e. cc), λ _. refl), inl refl)

-- `store_file` reports FILEOK exactly when the disk writes the request's content at the path of the
-- own files, or for a duplication of the replicas; otherwise the node is as it was. A written file
-- is listed once more, as a replica if the request is a duplication and as an own file if it is not,
-- and the other list stays. The request is sent on, marked as a duplication, exactly if it was none
-- and its file was written, and a node that handles it then does not send it on, whatever its disk
-- does.
pub store_file_lem :
    (write write' : FilePath → Bytes → DiskWrite) (chord next : Chord) (request : StoreFileRequest)
    → let path : FilePath = record {
      owner = chord.node.identifier;
      directory = if request.duplication_req then replicated_files else own_files;
      file_name = request.file_name;
    } in
      Stored (write path request.file_content) chord request (store_file write chord request)
      × ((store_file write' next (record request { duplication_req = true })).2 ≡ none)
unfolding store_file store_path
store_file_lem write write' chord next request = (
  after_write-Stored (write (store_path chord request) request.file_content) chord request,
  after_write-stops _ next (record request { duplication_req = true }) refl,
)
