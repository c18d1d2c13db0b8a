-- ===== src/Chord/Startup.antt =====
-- How a node of Lab3_Chord starts: `getIdentifier` of chordUtil.go, and `getArgs`, the set-up part of
-- `main` and the wait of `initIntervals` of chord.go. The certificates are left to their checks.
use tda596labs.Base.{
  ltb, if◌then◌else◌, replicate, Outcome, ok, fatal, ◌>>=◌, same, ℕ, zero, suc, ◌+◌, ◌-◌, ◌%◌,
  String, Bool, true, false, not, Option, none, some, [],
}
use tda596labs.Chord.Ring.{key_size, hash_mod, verify_range}
use tda596labs.Chord.Types.{Chord}
use tda596labs.Chord.Lookup.{hash_string}
use tda596labs.Chord.Membership.{init_client, create}
use tda596labs.Chord.RepairLaws.{count}
use tda596labs.Chord.Commands.{bytes_of}
use Prim.Native.String.{◌++◌ as str_append}

-- `n.Mod(n, hashMod)`, Euclidean, of a number with its sign.
unfoldable pub signed_mod : Bool → ℕ → ℕ
signed_mod false n = n % hash_mod
signed_mod true n = (hash_mod - n % hash_mod) % hash_mod

module _ (sha1 : String → ℕ) (set_string : String → Option (Bool × ℕ)) where
  -- `getIdentifier`; `set_string` is what `big.Int.SetString` reads in base 16, sign first.
  unfoldable pub get_identifier : String → String → Outcome ℕ
  get_identifier address specified =
      if same specified "XXX"
      then ok (hash_string sha1 address)
      else elim (set_string specified) [ none ↦ fatal | some n ↦ ok (signed_mod n.0 n.1) ]

-- The command line's flags; the number of successors is not negative, or `make` would panic.
pub record Flags : Type 0 where
  pub address : String
  pub port : String
  pub join_address : String
  pub join_port : String
  pub stabilize_ms : ℕ
  pub fix_fingers_ms : ℕ
  pub check_pred_ms : ℕ
  pub encode : String
  pub identifier : String
  pub num_succ : ℕ

pub record Timings : Type 0 where
  pub stabilize_ms : ℕ
  pub fix_fingers_ms : ℕ
  pub check_pred_ms : ℕ

-- What `getArgs` returns: the node, and the fields of `Chord` that only the start needs.
pub record Settings : Type 0 where
  pub chord : Chord
  pub join_node_ip : String
  pub join_node_port : String
  pub interval_timings : Timings

module _ (sha1 : String → ℕ) (set_string : String → Option (Bool × ℕ)) where
  -- `getArgs`; `cert_read` and `cert_parsed` say whether the CA certificate is there and is one.
  unfoldable pub get_args : Bool → Bool → Flags → Outcome Settings
  get_args cert_read cert_parsed flags =
      let node_address = str_append flags.address (str_append ":" flags.port) in
      if not (verify_range flags.stabilize_ms flags.fix_fingers_ms flags.check_pred_ms)
      then fatal
      else if not cert_read
      then fatal
      else if not cert_parsed
      then fatal
      else (get_identifier sha1 set_string node_address flags.identifier >>= λ id. ok (record {
        chord = record {
          node = record {
            identifier = id;
            node_address = node_address;
            predecessor = "";
            next_finger = 0;
            finger_table = replicate (key_size + 1) (record { identifier = 0; node_address = "" });
            successors = replicate flags.num_succ "";
            join_pending = true;
          };
          num_succ = flags.num_succ;
          files = [];
          replicated_files = [];
          enc_key = bytes_of flags.encode;
        };
        join_node_ip = flags.join_address;
        join_node_port = flags.join_port;
        interval_timings = record {
          stabilize_ms = flags.stabilize_ms;
          fix_fingers_ms = flags.fix_fingers_ms;
          check_pred_ms = flags.check_pred_ms;
        };
      }))

  -- `main` up to `initIntervals`: the node, and whom it asks to join, if it does not create a ring.
  unfoldable pub start : Settings → Outcome (Chord × Option String)
  start settings = init_client settings.chord >>= λ chord.
      if same settings.join_node_ip "XXX"
      then (create (record chord { node = record (chord.node) { join_pending = false } }) >>= λ c.
          ok (c, none))
      else ok
          (chord, some (str_append settings.join_node_ip (str_append ":" settings.join_node_port)))

-- The loop of `initIntervals` with `left` of its 30 rounds; `pending i` is `JoinPending` at the
-- `i`-th look.
unfoldable pub wait_ready : (ℕ → Bool) → ℕ → ℕ → ℕ
wait_ready pending zero count = count
wait_ready pending (suc left) count =
    let later = wait_ready pending left (count + 1) in if pending count then later else count

-- `initIntervals` up to its goroutine: the process exits if the set-up took too long.
unfoldable pub init_intervals : (ℕ → Bool) → Outcome ℕ
init_intervals pending =
    let count = wait_ready pending 30 0 in if ltb 25 count then fatal else ok count
