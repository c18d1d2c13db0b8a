-- ===== src/Chord/Files.antt =====
-- Stored and replicated files: `StoreFile`, `LookUp`, `reassignToPred` and the list updates of
-- `reassignDuplicatedToMe` of Lab3_Chord/chord.go, and `CallDuplication` of chordRPC.go.
use tda596labs.Base.{
  ltb, ◌==◌, if◌then◌else◌, length, Outcome, ok, ◌>>=◌, index, same, ℕ, String, Bool, true, false,
  not, ◌||◌, Option, none, some, List, [], ◌∷◌, ◌++◌,
}
use tda596labs.Chord.Ring.{between}
use tda596labs.Chord.Types.{
  unknown, Bytes, fileok, nosuchfile, readerr, createerr, writeerr, Chord, StoreFileRequest,
  StoreFileResponse, RetreiveFileRequest, RetreiveFileResponse,
}
use tda596labs.Chord.Lookup.{hash_string}
use tda596labs.Chord.Membership.{with_predecessor}
use tda596labs.Chord.Calls.{call_check_pred}

-- What the disk does with a file that is created and written.
pub data DiskWrite : Type 0 where
  written create_failed write_failed : DiskWrite

-- What the disk does with a file that is opened and read.
pub data DiskRead : Type 0 where
  no_such_file read_failed : DiskRead
  contents : List ℕ → DiskRead

-- The two directories of a node.
pub data Directory : Type 0 where
  own_files replicated_files : Directory

-- The path `<owner>Files/<name>` or `<owner>Replicated/<name>`.
pub record FilePath : Type 0 where
  pub owner : ℕ
  pub directory : Directory
  pub file_name : String

abbrev pub Disk : Type 0
Disk = FilePath → DiskRead

-- `filePath` in `StoreFile`.
unfoldable pub store_path : Chord → StoreFileRequest → FilePath
store_path chord request = record {
  owner = chord.node.identifier;
  directory = if request.duplication_req then replicated_files else own_files;
  file_name = request.file_name;
}

-- `StoreFile` behind the creation and the writing of its file.
unfoldable pub after_write :
    DiskWrite → Chord → StoreFileRequest → Chord × StoreFileResponse × Option StoreFileRequest
after_write create_failed chord request = (chord, record { file_status = createerr }, none)
after_write write_failed chord request = (chord, record { file_status = writeerr }, none)
after_write written chord request =
    if request.duplication_req
    then (
      record chord { replicated_files = chord.replicated_files ++ request.file_name ∷ [] },
      record { file_status = fileok },
      none,
    )
    else (
      record chord { files = chord.files ++ request.file_name ∷ [] },
      record { file_status = fileok },
      some (record request { duplication_req = true }),
    )

-- The handler `StoreFile`: the new state, the reply, and the request that is sent on to the
-- successor, if one is; the disk is given the request's content for the path.
unfoldable pub store_file :
    (FilePath → Bytes → DiskWrite)
    → Chord
    → StoreFileRequest
    → Chord × StoreFileResponse × Option StoreFileRequest
store_file write chord request =
    after_write (write (store_path chord request) request.file_content) chord request

-- Where `CallDuplication` sends its request: to the first successor, unless that is unknown or us.
unfoldable pub duplication_target : Chord → Outcome (Option String)
duplication_target chord = index chord.node.successors 0 >>= λ succ.
    if same succ unknown
    then ok none
    else if same succ chord.node.node_address
    then ok none
    else ok (some succ)

-- `filePath` in `LookUp`, and the paths of `reassignToPred` behind `fileDir`.
unfoldable pub own_path : ℕ → String → FilePath
own_path identifier file_name = record {
  owner = identifier;
  directory = own_files;
  file_name = file_name;
}

-- `LookUp` behind the opening and the reading of its file.
unfoldable pub after_read : DiskRead → Chord → RetreiveFileResponse → RetreiveFileResponse
after_read no_such_file chord response = record response {
  file_content = [];
  file_status = nosuchfile;
}
after_read read_failed chord response = record response { file_content = []; file_status = readerr }
after_read (contents bytes) chord response = record {
  node_address = chord.node.node_address;
  identifier = chord.node.identifier;
  file_status = fileok;
  file_content = bytes;
}

-- The handler `LookUp`.
unfoldable pub look_up :
    Disk → Chord → RetreiveFileRequest → RetreiveFileResponse → RetreiveFileResponse
look_up disk chord request response =
    after_read (disk (own_path chord.node.identifier request.file_name)) chord response

-- What `reassignToPred` acts on: `os.Remove`, and the node as other handlers leave it while the
-- lock is released for a request.
module _ (sha1 : String → ℕ) (remove : Disk → FilePath → Disk)
    (meanwhile : Chord → StoreFileRequest → Chord) where
  -- The loop of `reassignToPred`, in the directory of node `home`: the files that stay, the requests
  -- that are sent for others, and the node and its disk afterwards.
  unfoldable pub reassign :
      ℕ → Chord → Disk → List String → List String × List StoreFileRequest × Chord × Disk
  unfolding own_path
  reassign home chord disk [] = ([], [], chord, disk)
  reassign home chord disk (entry ∷ entries) =
      let path = own_path home entry in
      let file_id = hash_string sha1 entry in
      let (keep_files, sent, chord', disk') = reassign home chord disk entries in
      if between (hash_string sha1 chord.node.predecessor) file_id chord.node.identifier true
      then (entry ∷ keep_files, sent, chord', disk')
      else elim (disk path) [
        | contents bytes ↦
            let request : StoreFileRequest = record {
              file_identifier = file_id;
              file_name = entry;
              file_content = bytes;
              duplication_req = false;
            } in
            let (keep, more, chord'', disk'') =
              reassign home (meanwhile chord request) (remove disk path) entries in
            (keep, request ∷ more, chord'', disk'')
        | _ ↦ (keep_files, sent, chord', disk')
      ]

  -- `reassignToPred`.
  unfoldable pub reassign_to_pred : Chord → Disk → Chord × List StoreFileRequest × Disk
  reassign_to_pred chord disk =
      let (keep_files, sent, chord', disk') =
        reassign chord.node.identifier chord disk chord.files in
      if length chord.files == 0 || same chord.node.predecessor chord.node.node_address
      then (chord, [], disk)
      else if ltb (length keep_files) (length chord'.files)
      then (record chord' { files = keep_files }, sent, disk')
      else (chord', sent, disk')

-- The two assignments at the end of `reassignDuplicatedToMe`, behind its first test.
unfoldable pub reassign_duplicated_to_me : Chord → Chord
reassign_duplicated_to_me chord =
    if length chord.replicated_files == 0
    then chord
    else record chord { files = chord.files ++ chord.replicated_files; replicated_files = [] }

-- The ticker branch of `initIntervals` that checks the predecessor.
unfoldable pub check_pred_round :
    (String → ℕ)
    → (Disk → FilePath → Disk)
    → (Chord → StoreFileRequest → Chord)
    → Bool
    → Chord
    → Disk
    → Chord × List StoreFileRequest × Disk
check_pred_round sha1 remove meanwhile alive chord disk =
    if not (call_check_pred alive chord)
    then (with_predecessor (reassign_duplicated_to_me chord) unknown, [], disk)
    else reassign_to_pred sha1 remove meanwhile chord disk
