-- ===== src/Examples/Commands.antt =====
-- The start and the command line of a node of Lab3_Chord.
use tda596labs.Base.{
  ltb, if◌then◌else◌, length, replicate, ok, ◌>>=◌, index, same, same_refl, ℕ, ◌≤◌, ◌<◌, String,
  ◌≡◌, refl, ◌↔◌, Bool, true, false, Option, none, some, List, [], ◌∷◌, ◌++◌, arith,
}
use tda596labs.Chord.Ring.{mod_ring, between, verify_range}
use tda596labs.Chord.Types.{
  Bytes, RetCode, fileok, FingerEntry, Chord, Response, FindRequest, StoreFileRequest,
  StoreFileResponse, RetreiveFileRequest, RetreiveFileResponse, empty_response,
}
use tda596labs.Chord.Lookup.{hash_string, find_from, find}
use tda596labs.Chord.Calls.{resolve_identifier}
use tda596labs.Chord.Files.{
  DiskWrite, written, DiskRead, no_such_file, contents, FilePath, Disk, store_file,
  duplication_target,
}
use tda596labs.Chord.Cipher.{Aead, IsSound, encrypt}
use tda596labs.Chord.Commands.{stores_file, read_command, shows}
use tda596labs.Chord.StoredFiles.{line_of, serves, stored_file_found}
use tda596labs.Chord.CommandLine.{lookup_answer, parse_input}
use tda596labs.Chord.Startup.{get_identifier, Flags, get_args, start, init_intervals}
use tda596labs.Chord.StartupLaws.{init_intervals_lem, created_ring_owns}
use tda596labs.Chord.Transfers.{reassign_duplicated}
use tda596labs.Chord.TransferLaws.{names_of, Sent, reassign_duplicated_lem}

-- A cipher that adds nothing, with a nonce of one byte.
abbrev open_cipher : Aead
open_cipher = record {
  new_cipher = λ key. true;
  new_gcm = λ key. true;
  nonce_size = 1;
  seal = λ key nonce plain. plain;
  open_box = λ key nonce box. some box;
}

abbrev one_hash : String → ℕ
one_hash s = if same s "10.0.0.1:1234" then 40 else 70

abbrev peer : Chord
peer = record {
  node = record {
    identifier = 40;
    node_address = "10.0.0.1:1234";
    predecessor = "X";
    next_finger = 0;
    finger_table = [];
    successors = "10.0.0.2:1234" ∷ "10.0.0.1:1234" ∷ [];
    join_pending = false;
  };
  num_succ = 2;
  files = "b.txt" ∷ [];
  replicated_files = "a.txt" ∷ "c.txt" ∷ [];
  enc_key = 1 ∷ [];
}

abbrev owner_node : Chord
owner_node = record peer {
  node = record (peer.node) { identifier = 70; node_address = "10.0.0.2:1234" };
  enc_key = 2 ∷ [];
}

abbrev text_disk : String → DiskRead
text_disk name = contents (5 ∷ 6 ∷ [])

abbrev no_answer : ℕ → FindRequest → Option Response
no_answer round request = none

open_cipher-IsSound : IsSound open_cipher
open_cipher-IsSound = record { opens = λ key nonce plain. refl }

nonce_counted : (nonce : Bytes) → some (9 ∷ []) ≡ some nonce → length nonce ≡ open_cipher.nonce_size
nonce_counted nonce e =
    let same_nonce : 9 ∷ [] ≡ nonce = ground (arith, e) in rw (← same_nonce) refl

abbrev puts : Disk → FilePath → Bytes → Disk
puts disk path content asked =
    if same path.file_name asked.file_name then contents content else disk asked

abbrev no_files : Disk
no_files path = no_such_file

abbrev takes_all : FilePath → Bytes → DiskWrite
takes_all path content = written

abbrev no_reply : String → StoreFileRequest → Option StoreFileResponse
no_reply node request = none

stored_file_found_example :
    (stored : StoreFileRequest) × (read_command open_cipher
        (some (9 ∷ []))
        text_disk
        one_hash
        peer
        (line_of "StoreFile" "a.txt")
      ≡ ok (peer, stores_file stored))
    × ((store_file takes_all owner_node stored).1 ≡ record { file_status = fileok })
    × (parse_input open_cipher one_hash no_answer no_reply
          (serves puts takes_all no_files owner_node stored)
          none
          text_disk
          peer
          (line_of "Lookup" "a.txt")
        ≡ ok (peer, lookup_answer (shows 70 "10.0.0.2:1234" (5 ∷ 6 ∷ []))))
unfolding resolve_identifier find find_from hash_string mod_ring between encrypt
stored_file_found_example =
    stored_file_found open_cipher (some (9 ∷ [])) none text_disk text_disk puts takes_all no_files
      one_hash no_answer no_reply peer owner_node peer "a.txt" (5 ∷ 6 ∷ []) (9 ∷ 5 ∷ 6 ∷ [])
      open_cipher-IsSound nonce_counted (λ p b. refl) (λ d p b. rw (same_refl p.file_name) refl)
      (refl, (refl, (refl, (refl, (refl, tt))))) refl refl refl refl

abbrev no_file : String → RetreiveFileRequest → Option RetreiveFileResponse
no_file node request = none

abbrev finger : FingerEntry
finger = record { identifier = 7; node_address = "10.0.0.1:1234" }

abbrev with_fingers : Chord
with_fingers = record peer { node = record (peer.node) { finger_table = replicate 161 finger } }

abbrev three_rounds : ℕ → Bool
three_rounds n = ltb n 3

init_intervals_lem_example :
    (init_intervals three_rounds ≡ ok 3)
    ↔ ((3 ≤ 25) × (three_rounds 3 ≡ false) × ((i : ℕ) → i < 3 → three_rounds i ≡ true))
init_intervals_lem_example = init_intervals_lem three_rounds 3

abbrev first_flags : Flags
first_flags = record {
  address = "10.0.0.1";
  port = "1234";
  join_address = "XXX";
  join_port = "2222";
  stabilize_ms = 2000;
  fix_fingers_ms = 2000;
  check_pred_ms = 2000;
  encode = "1623456022901234";
  identifier = "XXX";
  num_succ = 2;
}

abbrev no_numbers : String → Option (Bool × ℕ)
no_numbers s = none

created_ring_owns_example :
    (chord : Chord) × (code : RetCode) × (owner : Response) × ((get_args one_hash no_numbers true
          true first_flags
        >>= λ settings. start one_hash no_numbers settings)
      ≡ ok (chord, none))
    × (find one_hash chord 99 empty_response ≡ ok (code, owner))
    × (owner.is_successor ≡ true)
    × (owner.node_address ≡ chord.node.node_address)
    × (chord.node.join_pending ≡ false)
unfolding get_identifier hash_string mod_ring verify_range
created_ring_owns_example =
    created_ring_owns one_hash no_numbers first_flags 40 99 empty_response refl (omega arith) refl
      refl refl

reassign_duplicated_lem_example :
    (sent : List (String × StoreFileRequest)) × (chord' : Chord) × (reassign_duplicated one_hash
        text_disk no_reply peer.replicated_files peer
      ≡ ok (chord', sent))
    × (chord'.files ≡ peer.files ++ peer.replicated_files)
    × (chord'.replicated_files ≡ [])
    × (names_of sent ≡ peer.replicated_files)
    × Sent text_disk "10.0.0.2:1234" sent
unfolding duplication_target index
reassign_duplicated_lem_example =
    reassign_duplicated_lem one_hash text_disk no_reply peer "10.0.0.2:1234" refl
      ((_, refl), ((_, refl), tt))
