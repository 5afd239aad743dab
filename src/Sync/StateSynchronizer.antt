-- ===== src/Sync/StateSynchronizer.antt =====
-- `StateSynchronizer` of src/sync/state-synchronizer.ts, with the state manager, the resolver and the
-- compressor that it holds. Publications are outputs. The broker delivers within the process and the
-- synchronizer subscribes to its own channel, so it hears what it publishes at once. The clock is an
-- argument, and the texts and the arrays of the language are parameters. The sync timer calls
-- `flushDeltas`.
pub mod Replicas
pub mod Writes
pub mod Conflict
pub mod Echo
mod Tests
use sync_engine.Base.{
  ℕ, zero, suc, ◌+◌, String, Bool, true, false, Option, none, some, List, [], ◌∷◌, ◌++◌, ltb, leb,
  length, take, drop, set_elem, or_else, if◌then◌else◌,
}
use sync_engine.Base.Map
use sync_engine.Base.Map.{Map}
use sync_engine.Core.Types.{
  EntityState, StateDelta, DeltaOperation, Op, set, delete, increment, append, remove,
}
use sync_engine.Core.Value.{Value, Fields, Items}
use sync_engine.Core.StateManager.Operations.{Host, property, put, erase, enter}
use sync_engine.Core.StateManager.Split.{split}
use sync_engine.Core.StateManager.State
use sync_engine.Core.StateManager.State.{
  StateManager, Snapshot, get_entity, get_entity_history, update_entity, load_snapshot,
  create_snapshot, get_deltas_since,
}
use sync_engine.Sync.ConflictResolver.{ConflictResolver, ConflictResult, resolve}
use sync_engine.Sync.DeltaCompressor
use sync_engine.Sync.DeltaCompressor.{DeltaCompressor, Text, compress}

pub record SyncPeer : Type 0 where
  pub node_id : String
  pub last_sync_version : ℕ
  pub last_sync_time : ℕ
  pub sync_count : ℕ
  pub error_count : ℕ

pub record StateSynchronizer : Type 0 where
  pub node_id : String
  pub peers : Map SyncPeer
  pub manager : StateManager
  pub resolver : ConflictResolver
  pub compressor : DeltaCompressor
  pub pending_deltas : List StateDelta
  pub batch_size : ℕ
  pub syncs_performed : ℕ

-- The message types STATE_DELTA, STATE_SNAPSHOT and STATE_REQUEST with their payloads. The entities of a
-- snapshot are the references that the manager holds.
pub data Payload : Type 0 where
  state_delta : List StateDelta → Payload
  state_snapshot : ℕ → Map ℕ → Payload
  state_request : ℕ → Payload

-- A payload, and the node that it is for.
pub data Output : Type 0 where
  published : Payload → Option String → Output

-- `into_array` is what `applyOperationToData` does with a path that leads into an array.
pub record Language : Type 0 where
  pub host : Host
  pub into_array : Op → List String → Value → Items → Items
  pub text : Text

unfoldable pub create : String → StateManager → ConflictResolver → ℕ → StateSynchronizer
create node manager resolver batch_size = record {
  node_id = node;
  peers = [];
  manager = manager;
  resolver = resolver;
  compressor = DeltaCompressor.create;
  pending_deltas = [];
  batch_size = batch_size;
  syncs_performed = 0;
}

-- The listener of 'entity:updated'.
abbrev pub listen : List State.Event → List StateDelta
listen [] = []
listen (State.entity_updated e d ∷ es) = d ∷ listen es
listen (State.entity_created e ∷ es) = listen es
listen (State.entity_deleted e ∷ es) = listen es
listen (State.state_loaded v ∷ es) = listen es

-- `updateEntity` of the manager, which the listener hears.
unfoldable pub update :
    Language → StateSynchronizer → String → List DeltaOperation → ℕ → StateSynchronizer
update l s id ops now =
    let (manager, _, events) = update_entity l.host s.manager id ops now in
    record s { manager = manager; pending_deltas = s.pending_deltas ++ listen events }

unfoldable pub add_peer : StateSynchronizer → String → StateSynchronizer
add_peer s node = if Map.has s.peers node then s else record s {
  peers = Map.set s.peers node (record {
    node_id = node;
    last_sync_version = 0;
    last_sync_time = 0;
    sync_count = 0;
    error_count = 0;
  });
}

abbrev pub remove_peer : StateSynchronizer → String → StateSynchronizer
remove_peer s node = record s { peers = Map.delete s.peers node }

-- The end of `applyOperationToData`.
unfoldable pub change_data : Op → Value → String → Fields → Fields
change_data set v key fs = put key v fs
change_data delete v key fs = erase key fs
change_data _ v key fs = fs

unfoldable pub data_at : Language → Op → Value → List String → Fields → Fields
unfolding change_data enter
data_at l op v [] fs = fs
data_at l op v (key ∷ []) fs = change_data op v key fs
data_at l op v (key ∷ next ∷ keys) fs =
    put key
      (enter (data_at l op v (next ∷ keys)) (l.into_array op (next ∷ keys) v) (property fs key)) fs

unfoldable pub apply_to_data : Language → Fields → List DeltaOperation → Fields
unfolding data_at split
apply_to_data l fs [] = fs
apply_to_data l fs (op ∷ ops) = apply_to_data l (data_at l op.op op.value (split op.path) fs) ops

-- The last delta of a history: what `pop` takes from the copy.
abbrev pub last_delta : List StateDelta → Option StateDelta
last_delta [] = none
last_delta (d ∷ []) = some d
last_delta (d ∷ e ∷ ds) = last_delta (e ∷ ds)

-- The remote entity is a shallow copy, so its operations change the very data of the local one.
abbrev pub with_data : EntityState → Fields → EntityState
with_data e fs = record e { data_ = fs }

abbrev pub touch : StateManager → String → EntityState → StateManager
touch m id e = elim (Map.get m.entities id) [
  | none ↦ m
  | some ref ↦ record m { store = set_elem m.store ref e }
]

-- The conflict of a local entity with a delta that starts before its version.
unfoldable pub resolve_delta :
    Language → StateSynchronizer → EntityState → StateDelta → StateDelta → ℕ → StateSynchronizer
unfolding apply_to_data update
resolve_delta l s local local_delta d now =
    let local' = with_data local (apply_to_data l local.data_ d.operations) in
    let remote = record local' { version = d.to_version; last_modified = d.timestamp } in
    let (resolver, result) = resolve s.resolver local' remote local_delta d now in
    let s' = record s { manager = touch s.manager d.entity_id local'; resolver = resolver } in
    if result.resolved
    then update l s' d.entity_id (or_else result.merged_operations d.operations) now
    else s'

-- One round of the loop of `handleRemoteDelta`.
unfoldable pub handle_delta : Language → StateSynchronizer → StateDelta → ℕ → StateSynchronizer
unfolding resolve_delta update
handle_delta l s d now = elim (get_entity s.manager d.entity_id) [
  | none ↦ update l s d.entity_id d.operations now
  | some local ↦
      if leb local.version d.from_version
      then update l s d.entity_id d.operations now
      else elim (last_delta (get_entity_history s.manager d.entity_id none)) [
        | none ↦ s
        | some local_delta ↦ resolve_delta l s local local_delta d now
      ]
]

unfoldable pub handle_deltas :
    Language → StateSynchronizer → List StateDelta → ℕ → StateSynchronizer
unfolding handle_delta
handle_deltas l s [] now = s
handle_deltas l s (d ∷ ds) now = handle_deltas l (handle_delta l s d now) ds now

abbrev pub synced : SyncPeer → ℕ → ℕ → SyncPeer
synced p version now = record p {
  last_sync_version = version;
  last_sync_time = now;
  sync_count = p.sync_count + 1;
}

unfoldable pub handle_remote_delta :
    Language → StateSynchronizer → String → List StateDelta → ℕ → StateSynchronizer
unfolding handle_deltas
handle_remote_delta l s source ds now =
    let s' = handle_deltas l s ds now in
    elim (Map.get s'.peers source) [
      | none ↦ s'
      | some p ↦ record s' { peers = Map.set s'.peers source (synced p s'.manager.version now) }
    ]

unfoldable pub handle_remote_snapshot : StateSynchronizer → ℕ → Map ℕ → ℕ → StateSynchronizer
unfolding load_snapshot
handle_remote_snapshot s version entities now = record s {
  manager =
      (load_snapshot s.manager
        (record { version = version; timestamp = now; entities = entities; checksum = "" })).0;
}

-- The last argument is what `computeChecksum` returns.
unfoldable pub handle_state_request :
    StateSynchronizer → String → ℕ → ℕ → String → StateSynchronizer × List Output
unfolding get_deltas_since create_snapshot
handle_state_request s source since now checksum = elim (get_deltas_since s.manager since) [
  | [] ↦
      let (manager, snap) = create_snapshot s.manager now checksum in
      (
        record s { manager = manager },
        published (state_snapshot snap.version snap.entities) (some source) ∷ [],
      )
  | d ∷ ds ↦ (s, published (state_delta (d ∷ ds)) (some source) ∷ [])
]

-- The subscription to the channel. The answer to a request is heard by the same synchronizer in its turn,
-- when the outputs are delivered.
unfoldable pub hear :
    Language → StateSynchronizer → String → Payload → ℕ → String → StateSynchronizer × List Output
unfolding handle_remote_delta handle_remote_snapshot handle_state_request
hear l s source (state_delta ds) now checksum = (handle_remote_delta l s source ds now, [])
hear l s source (state_snapshot version entities) now checksum =
    (handle_remote_snapshot s version entities now, [])
hear l s source (state_request since) now checksum =
    handle_state_request s source since now checksum

-- `flushDeltas`: the broker calls the subscription of the synchronizer before `publish` returns.
unfoldable pub flush_deltas : Language → StateSynchronizer → ℕ → StateSynchronizer × List Output
unfolding compress handle_remote_delta
flush_deltas l s now = elim s.pending_deltas [
  | [] ↦ (s, [])
  | d ∷ ds ↦
      let (compressor, batch) = compress l.host l.text s.compressor (take s.batch_size (d ∷ ds)) in
      let s' =
        handle_remote_delta l
          (record s { compressor = compressor; pending_deltas = drop s.batch_size (d ∷ ds) })
          s.node_id batch now in
      (
        record s' { syncs_performed = s'.syncs_performed + 1 },
        published (state_delta batch) none ∷ [],
      )
]

abbrev pub request_full_sync : String → Output
request_full_sync node = published (state_request 0) (some node)

abbrev pub get_peers : StateSynchronizer → List SyncPeer
get_peers s = Map.values s.peers

-- `getStats`: the flushes, the pending deltas, the peers and what the compressor counts.
abbrev pub get_stats : StateSynchronizer → ℕ × ℕ × ℕ × ((ℕ × ℕ) × ℕ)
get_stats s = (
  s.syncs_performed,
  length s.pending_deltas,
  Map.size s.peers,
  DeltaCompressor.get_stats s.compressor,
)
