-- ===== src/Examples/Nodes.antt =====
-- Concrete Chord nodes of Lab3_Chord, with finger tables of 161 entries.
use tda596labs.Base.{
  leb, if◌then◌else◌, replicate, All, Returns, same, ne_of_same, ℕ, zero, suc, ◌+◌, ◌-◌, ◌^◌, ◌≤◌,
  ◌<◌, String, ◌≡◌, refl, ◌⊎◌, true, false, [], ◌∷◌, arith,
}
use tda596labs.Chord.Ring.{
  hash_mod, jump_identifier, between, offset, between_inclusive, offset-jump_identifier,
}
use tda596labs.Chord.Types.{
  unknown, FingerEntry, Chord, NotifyRequest, NotifyResponse, empty_response,
}
use tda596labs.Chord.Lookup.{hash_string, find}
use tda596labs.Chord.LookupLaws.{IsReady, Means, find-Means}
use tda596labs.Chord.Membership.{with_predecessor, notify}
use tda596labs.Chord.MembershipLaws.{notify_closer}

between_inclusive_example : between 150 20 100 true ≡ leb (offset 150 20) (offset 150 100)
between_inclusive_example = between_inclusive 150 20 100 (omega arith) (omega arith) (omega arith)

offset-jump_identifier_example :
    (jump_identifier 7 4 < hash_mod) × (offset 7 (jump_identifier 7 4) + 1 ≡ 2 ^ (4 - 1))
offset-jump_identifier_example = offset-jump_identifier 7 4 (omega arith) (omega arith)

-- A digest for the examples: the addresses of three nodes and of one file.
abbrev pub digest : String → ℕ
digest s =
    if same s "a"
    then 100
    else if same s "b"
    then 200
    else if same s "c"
    then 300
    else if same s "f"
    then 50
    else 250

abbrev pub finger_b : FingerEntry
finger_b = record { identifier = 200; node_address = "b" }

-- Node "a" of the ring a, b, c.
abbrev pub node_a : Chord
node_a = record {
  node = record {
    identifier = 100;
    node_address = "a";
    predecessor = "c";
    next_finger = 0;
    finger_table = replicate 161 finger_b;
    successors = "b" ∷ "c" ∷ [];
    join_pending = false;
  };
  num_succ = 2;
  files = "f" ∷ "g" ∷ [];
  replicated_files = [];
  enc_key = [];
}

All-replicate : (n : ℕ) → All (λ f. f.identifier < hash_mod) (replicate n finger_b)
All-replicate zero = tt
All-replicate (suc n) = (omega arith, All-replicate n)

pub node_a-IsReady : IsReady node_a
node_a-IsReady = record {
  on_ring = omega arith;
  fingers_counted = refl;
  fingers_on_ring = All-replicate 161;
  has_successor = omega arith;
}

find-Means_example :
    Returns
      (find digest node_a 150 empty_response)
      (λ r. Means digest node_a 150 node_a.node.successors r.0 r.1)
find-Means_example = find-Means digest node_a 150 node_a-IsReady (omega arith) empty_response

abbrev pub request_b : NotifyRequest
request_b = record { node_address = "b"; identifier = 200 }

abbrev no_reply : NotifyResponse
no_reply = record { success = false; new_pred_address = "" }

notify_closer_example :
    let (after, reply) = notify digest node_a request_b no_reply in
    ((reply.success ≡ false) × (after ≡ node_a) × (reply.new_pred_address ≡ "c"))
    ⊎ ((reply.success ≡ true)
        × (after ≡ with_predecessor node_a "b")
        × ((node_a.node.predecessor ≡ request_b.node_address)
            ⊎ (offset (hash_string digest "c") 200 ≤ offset (hash_string digest "c") 100)))
notify_closer_example =
    notify_closer digest node_a request_b no_reply (omega arith) (omega arith)
      (ne_of_same "c" unknown refl)
