-- ===== src/Chord/CommandLine.antt =====
-- `parseInput` of Lab3_Chord/chord.go as a whole: a command is read, and its case does what is left of
-- it, with the calls of chordRPC.go and the tables that `dump` prints. While `CallStoreFile` has the
-- lock released, no other handler changes the node.
use tda596labs.Base.{
  Outcome, ok, ◌>>=◌, index, ℕ, zero, suc, ◌+◌, ◌-◌, String, Option, List, [], ◌∷◌,
}
use tda596labs.Chord.Ring.{key_size, hash_mod, mod_ring}
use tda596labs.Chord.Types.{
  Bytes, Chord, Response, FindRequest, StoreFileRequest, StoreFileResponse, RetreiveFileRequest,
  RetreiveFileResponse,
}
use tda596labs.Chord.RepairLaws.{count}
use tda596labs.Chord.Files.{DiskRead}
use tda596labs.Chord.Cipher.{Aead}
use tda596labs.Chord.Commands.{
  Action, printed_help, printed_hash, dumped, wrong_usage, store_aborted, not_found, key_set,
  bad_length, stores_file, retreives_file, read_command, Found, call_store_file, call_lookup,
}

-- What a command shows in the end: a message, the answer of a store, of a lookup, or the fingers.
pub data Shown : Type 0 where
  message : Action → Shown
  store_answer : Option StoreFileResponse → Shown
  lookup_answer : Found → Shown
  fingers : List (ℕ × ℕ × String) → Shown

-- The loop of `printFingers` over `count` fingers from finger `n` on: offset, identifier, address.
unfoldable pub print_fingers : ℕ → ℕ → Chord → Outcome (List (ℕ × ℕ × String))
print_fingers zero n chord = ok []
print_fingers (suc count) n chord = do
  finger ← index chord.node.finger_table n
  more ← print_fingers count (n + 1) chord
  ok (
      (
        mod_ring (finger.identifier + hash_mod - chord.node.identifier),
        finger.identifier,
        finger.node_address,
      )
      ∷ more)

module _ (aead : Aead) (sha1 : String → ℕ) (ask : ℕ → FindRequest → Option Response)
    (store_rpc : String → StoreFileRequest → Option StoreFileResponse)
    (lookup_rpc : String → RetreiveFileRequest → Option RetreiveFileResponse) where
  unfoldable pub perform : Chord → Action → Outcome Shown
  perform chord dumped = print_fingers key_size 1 chord >>= λ l. ok (fingers l)
  perform chord (stores_file request) =
      call_store_file sha1 ask store_rpc chord request >>= λ r. ok (store_answer r)
  perform chord (retreives_file request) =
      call_lookup sha1 ask aead lookup_rpc chord request >>= λ r. ok (lookup_answer r)
  perform chord printed_help = ok (message printed_help)
  perform chord printed_hash = ok (message printed_hash)
  perform chord wrong_usage = ok (message wrong_usage)
  perform chord store_aborted = ok (message store_aborted)
  perform chord not_found = ok (message not_found)
  perform chord key_set = ok (message key_set)
  perform chord (bad_length n) = ok (message (bad_length n))

  -- `parseInput`.
  unfoldable pub parse_input :
      Option Bytes → (String → DiskRead) → Chord → String → Outcome (Chord × Shown)
  parse_input random disk chord input = do
    r ← read_command aead random disk sha1 chord input
    shown ← perform (r.0) (r.1)
    ok (r.0, shown)
