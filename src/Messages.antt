-- ===== src/Messages.antt =====
-- The messages of proto/replication.proto that the nodes exchange. Every number is a uint64
-- but the port; a request's id is read as int64_t by the nodes, which is one to one.
use crown_kv.Common.{ℕ, Bool, Option, Text, ℤ, Map, List}

pub record PutRequest : Type 0 where
  pub request_id : ℕ
  pub key : Text
  pub value : Text
  pub version : ℕ
  pub client_addr : Text
  pub epoch : ℕ

pub record NodeInfo : Type 0 where
  pub node_id : Text
  pub address : Text
  pub port : ℤ

-- The texts that the nodes put into the error fields; `none` is the empty text. A `wrong_node`
-- may hold the address of the node that was meant.
pub data Error : Type 0 where
  no_error no_membership stale_epoch wrong_mode not_found tail_unavailable : Error
  version_not_found service_unavailable unknown_mode : Error
  wrong_node : Option Text → Error

pub record PutResponse : Type 0 where
  pub success : Bool
  pub error : Error
  pub version : ℕ

pub record GetRequest : Type 0 where
  pub key : Text
  pub epoch : ℕ

pub record GetResponse : Type 0 where
  pub value : Text
  pub version : ℕ
  pub error : Error

pub record WriteAck : Type 0 where
  pub request_id : ℕ
  pub key : Text
  pub version : ℕ
  pub epoch : ℕ

pub record CommitAck : Type 0 where
  pub key : Text
  pub version : ℕ

pub record VersionQueryRequest : Type 0 where
  pub key : Text
  pub epoch : ℕ

pub record VersionQueryResponse : Type 0 where
  pub committed_version : ℕ
  pub error : Error

pub record StateDumpResponse : Type 0 where
  pub kv_data : Map Text Text
  pub version_data : Map Text ℕ
  pub epoch : ℕ

pub record ReconfigureRequest : Type 0 where
  pub epoch : ℕ
  pub membership : List NodeInfo
  pub mode : Text
  pub removed_node_id : Text
  pub added_node_id : Text

pub record MembershipResponse : Type 0 where
  pub epoch : ℕ
  pub membership : List NodeInfo
  pub mode : Text

pub record SetModeResponse : Type 0 where
  pub success : Bool
  pub error : Error
  pub epoch : ℕ

pub record HeartbeatRequest : Type 0 where
  pub node_id : Text
  pub epoch : ℕ

pub record HeartbeatResponse : Type 0 where
  pub alive : Bool
  pub epoch : ℕ
