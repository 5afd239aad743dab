-- ===== src/Cluster/NodeRegistry.antt =====
-- `NodeRegistry` of src/cluster/node-registry.ts. The clock is an argument. An operation returns the
-- events that it emits on the global bus, in their order. The differences of times stop at 0, where
-- the source's would be negative: both fail the tests against the timeout.
pub mod Health
pub mod Selection
use sync_engine.Base.{
  ℕ, ◌+◌, ◌-◌, ◌*◌, String, Bool, true, false, not, ◌&&◌, Option, none, some, List, [], ◌∷◌, ◌++◌,
  ltb, leb, length, filter, str_eq, if◌then◌else◌, or_else,
}
use sync_engine.Base.Map
use sync_engine.Base.Map.{Map}
use sync_engine.Core.Types.{NodeStatus, initializing, active, draining, offline, suspect, NodeInfo}

pub data Event : Type 0 where
  node_joined node_updated node_left node_suspect node_offline : NodeInfo → Event

pub record NodeRegistry : Type 0 where
  pub nodes : Map NodeInfo
  pub local_node_id : String
  pub heartbeat_timeout : ℕ

abbrev pub is_active : NodeStatus → Bool
is_active active = true
is_active _ = false

abbrev pub is_suspect : NodeStatus → Bool
is_suspect suspect = true
is_suspect _ = false

unfoldable pub register_node : NodeRegistry → NodeInfo → NodeRegistry × List Event
register_node r info = (
  record r { nodes = Map.set r.nodes info.id info },
  elim (Map.get r.nodes info.id) [ none ↦ node_joined info ∷ [] | some _ ↦ node_updated info ∷ [] ],
)

unfoldable pub deregister_node : NodeRegistry → String → NodeRegistry × List Event
deregister_node r id = elim (Map.get r.nodes id) [
  | none ↦ (r, [])
  | some node ↦ (record r { nodes = Map.delete r.nodes id }, node_left node ∷ [])
]

-- What `updateHeartbeat` does to the node.
unfoldable pub refreshed : ℕ → Option ℕ → Option ℕ → NodeInfo → NodeInfo
refreshed now load connections node = record node {
  last_heartbeat = now;
  load = or_else load node.load;
  connections = or_else connections node.connections;
  status = if is_suspect node.status then active else node.status;
}

unfoldable pub update_heartbeat : NodeRegistry → String → Option ℕ → Option ℕ → ℕ → NodeRegistry
unfolding refreshed
update_heartbeat r id load connections now = elim (Map.get r.nodes id) [
  | none ↦ r
  | some node ↦ record r { nodes = Map.set r.nodes id (refreshed now load connections node) }
]

abbrev pub get_node : NodeRegistry → String → Option NodeInfo
get_node r id = Map.get r.nodes id

abbrev pub get_all_nodes : NodeRegistry → List NodeInfo
get_all_nodes r = Map.values r.nodes

abbrev pub get_active_nodes : NodeRegistry → List NodeInfo
get_active_nodes r = filter (λ (n : NodeInfo). is_active n.status) (Map.values r.nodes)

abbrev pub get_nodes_by_region : NodeRegistry → String → List NodeInfo
get_nodes_by_region r region =
    filter (λ (n : NodeInfo). str_eq n.region region) (Map.values r.nodes)

abbrev pub get_nodes_by_zone : NodeRegistry → String → List NodeInfo
get_nodes_by_zone r zone = filter (λ (n : NodeInfo). str_eq n.zone zone) (Map.values r.nodes)

abbrev pub node_count : NodeRegistry → ℕ
node_count r = length r.nodes

abbrev pub active_node_count : NodeRegistry → ℕ
active_node_count r = length (get_active_nodes r)

-- The first of the least loaded: the head of a stable sort by load.
unfoldable pub least_loaded : NodeInfo → List NodeInfo → NodeInfo
least_loaded best [] = best
least_loaded best (n ∷ ns) = least_loaded (if ltb n.load best.load then n else best) ns

abbrev pub least_of : List NodeInfo → Option NodeInfo
least_of [] = none
least_of (n ∷ ns) = some (least_loaded n ns)

-- An absent region and the empty one are both false in the source's test.
unfoldable pub get_least_loaded_node : NodeRegistry → Option String → Option NodeInfo
unfolding least_loaded
get_least_loaded_node r none = least_of (get_active_nodes r)
get_least_loaded_node r (some region) =
    if str_eq region ""
    then least_of (get_active_nodes r)
    else least_of (filter (λ (n : NodeInfo). str_eq n.region region) (get_active_nodes r))

-- What one round of `checkNodeHealth` does to the status of a node that is not the local one, from
-- the time since its last heartbeat.
unfoldable pub judged : ℕ → ℕ → NodeStatus → NodeStatus
judged timeout silence status =
    if ltb timeout silence
    then (if is_active status
        then suspect
        else (if is_suspect status && ltb (timeout * 2) silence then offline else status))
    else status

unfoldable pub judge_node : NodeRegistry → ℕ → String → NodeInfo → NodeInfo
unfolding judged
judge_node r now id node =
    if str_eq id r.local_node_id
    then node
    else record node { status = judged r.heartbeat_timeout (now - node.last_heartbeat) node.status }

-- The event of a change of status: `before` is the old one, and the node has the new one.
abbrev pub health_event : NodeStatus → NodeInfo → List Event
health_event before node =
    if is_active before && is_suspect node.status
    then node_suspect node ∷ []
    else (if is_suspect before && not (is_suspect node.status) then node_offline node ∷ [] else [])

-- One round of the loop of `checkNodeHealth`.
unfoldable pub check_one : NodeRegistry → ℕ → String → NodeRegistry × List Event
check_one r now id = elim (Map.get r.nodes id) [
  | none ↦ (r, [])
  | some node ↦
      let node' = judge_node r now id node in
      (record r { nodes = Map.set r.nodes id node' }, health_event node.status node')
]

unfoldable pub check_ids : NodeRegistry → ℕ → List String → NodeRegistry × List Event
check_ids r now [] = (r, [])
check_ids r now (id ∷ ids) =
    let (r', events) = check_one r now id in
    let later : NodeRegistry × List Event = check_ids r' now ids in (later.0, events ++ later.1)

unfoldable pub check_node_health : NodeRegistry → ℕ → NodeRegistry × List Event
unfolding check_ids check_one judge_node
check_node_health r now = check_ids r now (Map.keys r.nodes)
