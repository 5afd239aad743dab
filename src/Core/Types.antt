-- ===== src/Core/Types.antt =====
-- src/core/types.ts: the identifiers are texts, the timestamps are numbers of milliseconds, and a
-- load is a number that is only compared.
use sync_engine.Base.{ℕ, String, Option, List}
use sync_engine.Base.Map.{Map}
use sync_engine.Core.Value.{Value, Fields}

pub data NodeStatus : Type 0 where
  initializing active draining offline suspect : NodeStatus

pub data ServerStatus : Type 0 where
  starting running full draining stopped error : ServerStatus

pub data MatchStatus : Type 0 where
  waiting starting in_progress ending completed cancelled : MatchStatus

pub record NodeInfo : Type 0 where
  pub id : String
  pub host : String
  pub port : ℕ
  pub region : String
  pub zone : String
  pub status : NodeStatus
  pub load : ℕ
  pub connections : ℕ
  pub max_connections : ℕ
  pub started_at : ℕ
  pub last_heartbeat : ℕ
  pub metadata : Fields

pub record GameServerInfo : Type 0 where
  pub id : String
  pub node_id : String
  pub name : String
  pub map : String
  pub mode : String
  pub status : ServerStatus
  pub current_players : ℕ
  pub max_players : ℕ
  pub tick_rate : ℕ
  pub uptime_ms : ℕ
  pub avg_latency_ms : ℕ
  pub metadata : Fields

pub record MatchInfo : Type 0 where
  pub id : String
  pub server_id : String
  pub mode : String
  pub map : String
  pub status : MatchStatus
  pub players : List String
  pub max_players : ℕ
  pub started_at : Option ℕ
  pub ended_at : Option ℕ
  pub duration : Option ℕ
  pub metadata : Fields

pub data MessageType : Type 0 where
  state_update state_delta state_snapshot state_request : MessageType
  entity_create entity_update entity_delete : MessageType
  event command query response : MessageType
  heartbeat heartbeat_ack : MessageType
  join leave : MessageType
  node_announce node_goodbye : MessageType
  error : MessageType

pub record SyncMessage {ℓ} (A : Type ℓ) : Type ℓ where
  pub id : String
  pub type : MessageType
  pub channel : String
  pub source : String
  pub target : Option String
  pub payload : A
  pub timestamp : ℕ
  pub sequence : ℕ
  pub ttl : ℕ

pub record EntityState : Type 0 where
  pub id : String
  pub type : String
  pub owner_id : String
  pub data_ : Fields
  pub version : ℕ
  pub last_modified : ℕ

pub record StateSnapshot : Type 0 where
  pub version : ℕ
  pub timestamp : ℕ
  pub entities : Map EntityState
  pub checksum : String

pub data Op : Type 0 where
  set delete increment append remove : Op

pub record DeltaOperation : Type 0 where
  pub op : Op
  pub path : String
  pub value : Value

pub record StateDelta : Type 0 where
  pub entity_id : String
  pub from_version : ℕ
  pub to_version : ℕ
  pub operations : List DeltaOperation
  pub timestamp : ℕ
