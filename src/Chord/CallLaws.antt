-- ===== src/Chord/CallLaws.antt =====
-- What the client calls of Lab3_Chord/chordRPC.go achieve.
use tda596labs.Base.{
  if◌then◌else◌, Bool-cases, length, replicate, ok, index, Returns, then_returns, same, same_ne, ℕ,
  zero, suc, ◌+◌, ◌≤◌, ◌<◌, String, ◌≡◌, refl, ◌≢◌, ◌⊎◌, inl, inr, Bool, true, false, not, Option,
  none, some, List, ◌∷◌, ◌++◌,
}
use tda596labs.Chord.Ring.{key_size, hash_mod}
use tda596labs.Chord.Types.{
  unknown, RetCode, solonode, mysucc, iamsucc, passalong, Chord, Response, StabilizeResponse,
  FindRequest, empty_response,
}
use tda596labs.Chord.Lookup.{is_passalong, find}
use tda596labs.Chord.LookupLaws.{IsReady, IsNearest, Means, find-Means}
use tda596labs.Chord.Membership.{with_successors}
use tda596labs.Chord.MembershipLaws.{take_known, verify_succs_lem}
use tda596labs.Chord.Repair.{clear_dead_succ}
use tda596labs.Chord.RepairLaws.{without, count, clear_dead_succ_lem}
use tda596labs.Chord.Calls.{after_stabilize, call_stabilize, resolve_rounds, resolve_identifier}

module _ (P : String → Type 0) (ask : ℕ → FindRequest → Option Response) (chord : Chord)
    (answers : (round : ℕ) (q : FindRequest) (r : Response)
      → ask round q ≡ some r
      → r.is_successor ≡ true
      → P r.node_address) where
  -- The outcome of a search: it was given up, it is the node itself, or some node vouched for it.
  abbrev pub Resolved : String → Type 0
  Resolved a = (a ≡ unknown) ⊎ (a ≡ chord.node.node_address) ⊎ P a

  resolve_rounds-Resolved :
      (rounds : ℕ) (request : FindRequest) → Resolved (resolve_rounds ask rounds chord request)
  unfolding resolve_rounds
  resolve_rounds-Resolved zero request = inl refl
  resolve_rounds-Resolved (suc rounds) request =
      go (λ q. resolve_rounds-Resolved rounds q)
        (same request.query_node_address chord.node.node_address) (ask rounds request) refl
    where
      inner :
          ((q : FindRequest) → Resolved (resolve_rounds ask rounds chord q))
          → (r : Response) (b : Bool) → ask rounds request ≡ some r
          → r.is_successor ≡ b
          → Resolved (elim b [
            | true ↦ r.node_address
            | false ↦
                resolve_rounds ask rounds chord
                  (record request { query_node_address = r.node_address })
          ])
      inner again r true e f = inr (inr (answers rounds request r e f))
      inner again r false e f = again (record request { query_node_address = r.node_address })

      go :
          ((q : FindRequest) → Resolved (resolve_rounds ask rounds chord q))
          → (b : Bool) (o : Option Response) → ask rounds request ≡ o
          → Resolved (elim b [
            | true ↦ chord.node.node_address
            | false ↦ elim o [
              | none ↦ unknown
              | some response ↦ elim (response.is_successor) [
                | true ↦ response.node_address
                | false ↦
                    resolve_rounds ask rounds chord
                      (record request { query_node_address = response.node_address })
              ]
            ]
          ])
      go again true o e = inr (inl refl)
      go again false none e = inl refl
      go again false (some r) e = inner again r r.is_successor e refl

-- What the successor's answer makes of the node, and whom the node is to notify.
pub data Stabilized (chord : Chord) (succ : String) (rest : List String) (r : Chord × Option String)
    : Option StabilizeResponse → Type 0 where
  silent :
      r.0.node.successors ≡ without succ rest ++ replicate (suc (count succ rest)) unknown
      → r.1 ≡ none
      → Stabilized chord succ rest r none
  replaced :
      (response : StabilizeResponse)
      → response.you_good ≡ false
      → r ≡ (
        chord,
        if same response.new_pred_address chord.node.node_address
            then none
            else some response.new_pred_address,
      )
      → Stabilized chord succ rest r (some response)
  agreed :
      (response : StabilizeResponse)
      → response.you_good ≡ true
      → r ≡ (with_successors chord (succ ∷ take_known rest response.node_successors), none)
      → Stabilized chord succ rest r (some response)

-- An answer's list, if there is one, is as long as the rest of our own.
abbrev pub LongEnough : List String → Option StabilizeResponse → Type 0
LongEnough rest none = Unit
LongEnough rest (some response) = length rest ≤ length response.node_successors

after_stabilize_lem :
    (chord : Chord) (succ : String) (rest : List String) (answer : Option StabilizeResponse)
    → chord.node.successors ≡ succ ∷ rest
    → length chord.node.finger_table ≡ key_size + 1
    → LongEnough rest answer
    → Returns (after_stabilize chord answer) (λ r. Stabilized chord succ rest r answer)
unfolding after_stabilize
after_stabilize_lem chord succ rest none e l h =
    then_returns _ (clear_dead_succ chord) _ (clear_dead_succ_lem chord succ rest e l)
      (λ c v. silent v.0 refl)
after_stabilize_lem chord succ rest (some response) e l h = elim (Bool-cases response.you_good) [
  | inl g ↦ simp (g, verify_succs_lem chord response succ rest e h) (agreed response g refl)
  | inr g ↦ elim (Bool-cases (same response.new_pred_address chord.node.node_address)) [
    | inl f ↦ simp (g, f) (replaced response g (rw f))
    | inr f ↦ simp (g, f) (replaced response g (rw f))
  ]
]

-- On a node with 161 fingers whose first successor is known and is not the node itself, and if no
-- other handler changes the node during the RPC and an answer's list is as long as the rest of our
-- own, `call_stabilize` returns. A silent successor leaves the list with all its occurrences and
-- the list is filled up with unknown entries; a successor that does not agree changes nothing, and
-- the node that it names is to be notified unless that is us; a successor that agrees stays first,
-- and its own known successors are copied behind it.
pub call_stabilize_lem :
    (chord : Chord) (succ : String) (rest : List String) (answer : Option StabilizeResponse)
    → chord.node.successors ≡ succ ∷ rest
    → length chord.node.finger_table ≡ key_size + 1
    → succ ≢ unknown
    → succ ≢ chord.node.node_address
    → LongEnough rest answer
    → Returns
        (call_stabilize (λ c _ _. (c, answer)) chord)
        (λ r. Stabilized chord succ rest r answer)
unfolding call_stabilize index
call_stabilize_lem chord succ rest answer e l known other h =
    simp (e, same_ne succ unknown known, same_ne succ chord.node.node_address other)
      (after_stabilize_lem chord succ rest answer e l h)

module _ (sha1 : String → ℕ) (P : String → Type 0) (ask : ℕ → FindRequest → Option Response)
    (chord : Chord) where
  -- Let the node be set up, the identifier lie on the ring, and let `P` hold of every node that
  -- the ring names as a successor and of the nearest successor that the node itself knows. Then
  -- `resolve_identifier` returns, and its result is unknown, the node itself or a node with `P`.
  pub resolve_identifier-Resolved :
      (identifier : ℕ)
      → IsReady chord
      → identifier < hash_mod
      → ((round : ℕ) (q : FindRequest) (r : Response)
          → ask round q ≡ some r
          → r.is_successor ≡ true
          → P r.node_address)
      → ((r : Response)
          → IsNearest sha1 chord identifier chord.node.successors r
          → P r.node_address)
      → Returns
          (resolve_identifier sha1 ask chord identifier)
          (λ a. (a ≡ unknown) ⊎ (a ≡ chord.node.node_address) ⊎ P a)
  unfolding resolve_identifier
  resolve_identifier-Resolved identifier ready h answers nearest =
      then_returns _ (find sha1 chord identifier empty_response) _
        (find-Means sha1 chord identifier ready h empty_response) (λ r v. by_code r.0 r.1 v)
    where
      by_code :
          (code : RetCode) (r : Response)
          → Means sha1 chord identifier chord.node.successors code r
          → Returns
              (if not (is_passalong code)
                then ok (r.node_address)
                else if same r.node_address chord.node.node_address
                then ok chord.node.node_address
                else ok (
                    resolve_rounds ask 32 chord (record {
                      query_identifier = identifier;
                      query_node_address = r.node_address;
                    })))
              (λ a. (a ≡ unknown) ⊎ (a ≡ chord.node.node_address) ⊎ P a)
      by_code solonode r v = inr (inl v.0.address)
      by_code mysucc r v = inr (inr (nearest r v.0))
      by_code iamsucc r v = inr (inl v.0.address)
      by_code passalong r v = elim (Bool-cases (same r.node_address chord.node.node_address)) [
        | inl e ↦ rw e (inr (inl refl))
        | inr e ↦ rw e (
            resolve_rounds-Resolved P ask chord answers 32
              (record { query_identifier = identifier; query_node_address = r.node_address }))
      ]
