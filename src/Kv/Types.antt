-- ===== src/Kv/Types.antt =====
-- Configurations and messages: Lab2_MapReduce/src/shardctrler/common.go and shardkv/common.go. A key
-- is its bytes.
use tda596labs.Base.{ℕ, String, Bool, List}
use tda596labs.Base.IntMap.{IntMap}

abbrev pub nshards : ℕ
nshards = 10

pub record Config : Type 0 where
  pub num : ℕ
  pub shards : List ℕ
  pub groups : IntMap (List String)

-- The replies of the controller; `Join`, `Leave` and `Move` share a shape.
pub record QueryReply : Type 0 where
  pub wrong_leader : Bool
  pub config : Config

pub record CtrlReply : Type 0 where
  pub wrong_leader : Bool

-- `OK`, the three errors, and any other text, such as the empty one of a fresh reply.
pub data Err : Type 0 where
  ok_err no_key wrong_group wrong_leader_err other_err : Err

pub record GetReply : Type 0 where
  pub err : Err
  pub value : String

pub record PutAppendArgs : Type 0 where
  pub key : List ℕ
  pub value : String
  pub op : String

pub record PutAppendReply : Type 0 where
  pub err : Err
