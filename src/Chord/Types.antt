-- ===== src/Chord/Types.antt =====
-- The state of a Chord node and the messages between nodes: Lab3_Chord/chordTypes.go and rpc.go.
-- The transport (protocol, certificates, mutex), the tracer and the timings are left out.
use tda596labs.Base.{ℕ, String, Bool, false, List}

-- "X" stands for a node that is not known.
abbrev pub unknown : String
unknown = "X"

abbrev pub Bytes : Type 0
Bytes = List ℕ

pub data RetCode : Type 0 where
  solonode mysucc iamsucc passalong : RetCode

pub data FileStat : Type 0 where
  fileok nosuchfile readerr createerr writeerr : FileStat

pub record FingerEntry : Type 0 where
  pub identifier : ℕ
  pub node_address : String

pub record NodeInfo : Type 0 where
  pub identifier : ℕ
  pub node_address : String
  pub predecessor : String
  pub next_finger : ℕ
  pub finger_table : List FingerEntry
  pub successors : List String
  pub join_pending : Bool

pub record Chord : Type 0 where
  pub node : NodeInfo
  pub num_succ : ℕ
  pub files : List String
  pub replicated_files : List String
  pub enc_key : List ℕ

pub record JoinRequest : Type 0 where
  pub node_address : String
  pub identifier : ℕ

pub record Response : Type 0 where
  pub is_successor : Bool
  pub node_address : String
  pub identifier : ℕ

pub record StabilizeRequest : Type 0 where
  pub node_address : String
  pub identifier : ℕ

pub record StabilizeResponse : Type 0 where
  pub you_good : Bool
  pub new_pred_address : String
  pub node_successors : List String

pub record FindRequest : Type 0 where
  pub query_identifier : ℕ
  pub query_node_address : String

pub record NotifyRequest : Type 0 where
  pub node_address : String
  pub identifier : ℕ

pub record NotifyResponse : Type 0 where
  pub success : Bool
  pub new_pred_address : String

pub record StoreFileRequest : Type 0 where
  pub file_identifier : ℕ
  pub file_name : String
  pub file_content : List ℕ
  pub duplication_req : Bool

pub record StoreFileResponse : Type 0 where
  pub file_status : FileStat

pub record RetreiveFileRequest : Type 0 where
  pub file_identifier : ℕ
  pub file_name : String

pub record RetreiveFileResponse : Type 0 where
  pub node_address : String
  pub identifier : ℕ
  pub file_status : FileStat
  pub file_content : List ℕ

-- `Response{}`, as a fresh reply.
abbrev pub empty_response : Response
empty_response = record { is_successor = false; node_address = ""; identifier = 0 }
