-- ===== src/Chord/ReassignLaws.antt =====
-- Which files `reassignToPred` of Lab3_Chord/chord.go keeps, and which it sends away.
use tda596labs.Base.{
  leb, if◌then◌else◌, All, ℕ, String, ◌≡◌, refl, ◌≢◌, ◌⊎◌, inl, inr, Bool, false, List, [], ◌∷◌,
}
use tda596labs.Chord.Ring.{offset}
use tda596labs.Chord.Types.{Bytes, Chord, StoreFileRequest}
use tda596labs.Chord.Lookup.{hash_string}
use tda596labs.Chord.Files.{DiskRead, no_such_file, read_failed, contents, FilePath, Disk, own_path}

pub read_cases :
    (r : DiskRead)
    → (r ≡ no_such_file) ⊎ (r ≡ read_failed) ⊎ ((bytes : Bytes) × (r ≡ contents bytes))
read_cases no_such_file = inl refl
read_cases read_failed = inr (inl refl)
read_cases (contents bytes) = inr (inr (bytes, refl))

-- No name stands twice in the list.
abbrev pub Distinct : List String → Type 0
Distinct [] = Unit
Distinct (x ∷ xs) = All (λ y. y ≢ x) xs × Distinct xs

-- Every file of the list can be read in the node's directory.
abbrev pub AllReadable : ℕ → Disk → List String → Type 0
AllReadable home disk entries =
    All (λ e. (bytes : Bytes) × (disk (own_path home e) ≡ contents bytes)) entries

module _ (sha1 : String → ℕ) (chord : Chord) (home : ℕ) (disk : Disk) where
  -- The file lies on the arc that the node is responsible for.
  abbrev pub on_arc : String → Bool
  on_arc entry =
      leb (offset (hash_string sha1 chord.node.predecessor) (hash_string sha1 entry))
        (offset (hash_string sha1 chord.node.predecessor) chord.node.identifier)

  abbrev pub arc_files : List String → List String
  arc_files [] = []
  arc_files (x ∷ xs) = let rest = arc_files xs in if on_arc x then x ∷ rest else rest

  abbrev pub SentAway : StoreFileRequest → Type 0
  SentAway r =
      (r.file_identifier ≡ hash_string sha1 r.file_name)
      × (disk (own_path home r.file_name) ≡ contents r.file_content)
      × (r.duplication_req ≡ false)
      × (on_arc r.file_name ≡ false)

  module _ (remove : Disk → FilePath → Disk) (meanwhile : Chord → StoreFileRequest → Chord) where
    -- The disk is the one at the start, without some files.
    abbrev Fewer : Disk → Type 0
    Fewer d = (q : FilePath) → (d q ≡ disk q) ⊎ (d q ≡ no_such_file)
