-- ===== src/Cluster/ClusterCoordinator.antt =====
-- `ClusterCoordinator` of src/cluster/cluster-coordinator.ts, over the registry of its node. The
-- clock, the load that `calculateLoad` measures and the order of `localeCompare` (`before a b` for
-- a negative result) are arguments. An operation returns what it publishes on the cluster's channel
-- and what it emits on the bus. The registry holds the very object `localNode` once `start` has
-- registered it, so a write to that object is a write to the registry's entry too.
pub mod Election
pub mod Announce
use sync_engine.Base.{
  ℕ, ◌+◌, ◌≡◌, String, Bool, true, false, Option, none, some, List, [], ◌∷◌, ◌++◌, map, ltb, ◌==◌,
  str_eq, if◌then◌else◌,
}
use sync_engine.Base.Map
use sync_engine.Core.Value.{end}
use sync_engine.Core.Types.{NodeInfo, active}
use sync_engine.Cluster.NodeRegistry.{
  NodeRegistry, Event, node_joined, node_updated, node_left, node_suspect, node_offline,
  register_node, deregister_node, update_heartbeat, get_active_nodes, get_all_nodes, check_one,
}

pub record ClusterCoordinator : Type 0 where
  pub registry : NodeRegistry
  pub local_node : NodeInfo
  pub leader_id : Option String
  pub term : ℕ

-- `config.cluster`, and `config.ws.maxConnections`.
pub record ClusterConfig : Type 0 where
  pub node_id : String
  pub advertise_host : String
  pub advertise_port : ℕ
  pub region : String
  pub zone : String
  pub max_connections : ℕ

unfoldable pub create : NodeRegistry → ClusterConfig → ℕ → ClusterCoordinator
create registry cfg now = record {
  registry = registry;
  local_node = record {
    id = cfg.node_id;
    host = cfg.advertise_host;
    port = cfg.advertise_port;
    region = cfg.region;
    zone = cfg.zone;
    status = active;
    load = 0;
    connections = 0;
    max_connections = cfg.max_connections;
    started_at = now;
    last_heartbeat = now;
    metadata = end;
  };
  leader_id = none;
  term = 0;
}

abbrev pub get_leader_id : ClusterCoordinator → Option String
get_leader_id c = c.leader_id

abbrev pub get_local_node : ClusterCoordinator → NodeInfo
get_local_node c = c.local_node

-- A message on the cluster's channel.
pub data Message : Type 0 where
  node_announce : NodeInfo → Message
  node_goodbye : String → Message
  heartbeat : String → ℕ → ℕ → Message

pub data Output : Type 0 where
  bus : Event → Output
  leader_elected : String → ℕ → Output
  publish : Message → Output

-- The comparison by which `startElection` sorts: by the time of the start, then by the identifier.
unfoldable pub earlier : (String → String → Bool) → NodeInfo → NodeInfo → Bool
earlier before a b =
    if a.started_at == b.started_at then before a.id b.id else ltb a.started_at b.started_at

-- The head of the sorted array: the first node that none comes before.
unfoldable pub first_of : (String → String → Bool) → NodeInfo → List NodeInfo → NodeInfo
first_of before best [] = best
first_of before best (n ∷ ns) = first_of before (if earlier before n best then n else best) ns

unfoldable pub winner : (String → String → Bool) → NodeInfo → List NodeInfo → String
winner before self [] = self.id
winner before self (n ∷ ns) = (first_of before n ns).id

unfoldable pub start_election :
    (String → String → Bool) → ClusterCoordinator → ClusterCoordinator × List Output
unfolding winner
start_election before c =
    let leader = winner before c.local_node (get_active_nodes c.registry) in
    (
      record c { term = c.term + 1; leader_id = some leader },
      leader_elected leader (c.term + 1) ∷ [],
    )

abbrev pub is_leader_id : ClusterCoordinator → String → Bool
is_leader_id c id = elim c.leader_id [ none ↦ false | some l ↦ str_eq l id ]

abbrev pub is_leader : ClusterCoordinator → Bool
is_leader c = is_leader_id c c.local_node.id

-- The handlers of the cluster's channel.
unfoldable pub handle_message :
    (String → String → Bool) → ℕ → ClusterCoordinator → Message → ClusterCoordinator × List Output
handle_message before now c (node_announce node) =
    let (r, events) = register_node c.registry node in
    let c' : ClusterCoordinator = record c { registry = r } in
    (c', map bus events ++ (if is_leader c then publish (node_announce c.local_node) ∷ [] else []))
handle_message before now c (node_goodbye id) =
    let (r, events) = deregister_node c.registry id in
    let c' : ClusterCoordinator = record c { registry = r } in
    let elected = start_election before c' in
    if is_leader_id c id then (elected.0, map bus events ++ elected.1) else (c', map bus events)
handle_message before now c (heartbeat id load connections) =
    (record c { registry = update_heartbeat c.registry id (some load) (some connections) now }, [])

-- The listener of `cluster:node_offline`; the other events have none here.
unfoldable pub on_event :
    (String → String → Bool) → ClusterCoordinator → Event → ClusterCoordinator × List Output
on_event before c (node_offline node) =
    let elected = start_election before c in
    if is_leader_id c node.id
    then (elected.0, bus (node_offline node) ∷ elected.1)
    else (c, bus (node_offline node) ∷ [])
on_event before c e = (c, bus e ∷ [])

unfoldable pub on_events :
    (String → String → Bool) → ClusterCoordinator → List Event → ClusterCoordinator × List Output
unfolding on_event
on_events before c [] = (c, [])
on_events before c (e ∷ es) =
    let (c', out) = on_event before c e in
    let later : ClusterCoordinator × List Output = on_events before c' es in
    (later.0, out ++ later.1)

-- `checkNodeHealth` of the registry, with the listeners run where the source emits: between the nodes
-- of the loop.
unfoldable pub check_ids :
    (String → String → Bool)
    → ℕ
    → ClusterCoordinator
    → List String
    → ClusterCoordinator × List Output
check_ids before now c [] = (c, [])
check_ids before now c (id ∷ ids) =
    let (r, events) = check_one c.registry now id in
    let (c', out) = on_events before (record c { registry = r }) events in
    let later : ClusterCoordinator × List Output = check_ids before now c' ids in
    (later.0, out ++ later.1)

unfoldable pub check_health :
    (String → String → Bool) → ℕ → ClusterCoordinator → ClusterCoordinator × List Output
unfolding check_ids on_events
check_health before now c = check_ids before now c (Map.keys c.registry.nodes)

-- `start`: register, announce and elect; what the announcement's own delivery does is the broker's.
unfoldable pub start :
    (String → String → Bool) → ClusterCoordinator → ClusterCoordinator × List Output
unfolding start_election
start before c =
    let (r, events) = register_node c.registry c.local_node in
    let elected = start_election before (record c { registry = r }) in
    (elected.0, map bus events ++ (publish (node_announce c.local_node) ∷ elected.1))

abbrev pub stop : ClusterCoordinator → ClusterCoordinator × List Output
stop c = (c, publish (node_goodbye c.local_node.id) ∷ [])

unfoldable pub send_heartbeat : ℕ → ℕ → ClusterCoordinator → ClusterCoordinator × List Output
send_heartbeat now load c =
    let node : NodeInfo = record c.local_node { last_heartbeat = now; load = load } in
    (
      record c {
        local_node = node;
        registry = update_heartbeat c.registry node.id (some load) (some node.connections) now;
      },
      publish (heartbeat node.id load node.connections) ∷ [],
    )

unfoldable pub update_connection_count : ℕ → ClusterCoordinator → ClusterCoordinator
update_connection_count count c =
    let node : NodeInfo = record c.local_node { connections = count } in
    let r = c.registry in
    record c {
      local_node = node;
      registry = elim (Map.get r.nodes node.id) [
        | none ↦ r
        | some entry ↦ record r {
          nodes = Map.set r.nodes node.id (record entry { connections = count });
        }
      ];
    }

pub record ClusterState : Type 0 where
  pub leader_id : Option String
  pub term : ℕ
  pub nodes : List NodeInfo
  pub last_election : ℕ

unfoldable pub get_cluster_state : ℕ → ClusterCoordinator → ClusterState
get_cluster_state now c = record {
  leader_id = c.leader_id;
  term = c.term;
  nodes = get_all_nodes c.registry;
  last_election = now;
}
