-- ===== src/Cluster/Tests.antt =====
-- Runs of `NodeRegistry` and `ClusterCoordinator` of src/cluster.
use sync_engine.Base.{
  ℕ, ◌≡◌, ◌≢◌, refl, sym, ap, ◌∙◌, false, inl, inr, String, true, some, none, arith, eq_iff,
}
use mathlib.Core.List.{[], ◌∷◌}
use sync_engine.Base.Map
use sync_engine.Core.Value.{end}
use sync_engine.Core.Types.{NodeStatus, active, suspect, NodeInfo}
use sync_engine.Cluster.NodeRegistry.{NodeRegistry, get_node, get_active_nodes}
use sync_engine.Cluster.ClusterCoordinator
use sync_engine.Cluster.ClusterCoordinator.{
  ClusterCoordinator, node_announce, start_election, earlier, is_leader,
}
use sync_engine.Cluster.ClusterCoordinator.Election.{Covers, AreDistinct, elections_agree}
use sync_engine.Cluster.TextOrder.{lex, lex-IsOrder}

abbrev node : String → ℕ → NodeStatus → NodeInfo
node id load status = record {
  id = id;
  host = "h";
  port = 3000;
  region = "eu";
  zone = "z";
  status = status;
  load = load;
  connections = 0;
  max_connections = 10;
  started_at = 1;
  last_heartbeat = 100;
  metadata = end;
}

abbrev registry : NodeRegistry
registry = record {
  nodes = ("b", node "b" 7 active) ∷ ("a", node "a" 9 active) ∷ ("s", node "s" 1 suspect) ∷ [];
  local_node_id = "b";
  heartbeat_timeout = 30;
}

distinct : Map.Distinct registry.nodes
unfolding Map.Distinct Map.get
distinct = (refl, (refl, (refl, tt)))

a_is_known : get_node registry "a" ≡ some (node "a" 9 active)
unfolding Map.get
a_is_known = refl

abbrev remote : String
remote = "a"

a_is_remote : remote ≢ "b"
a_is_remote = ground (arith, eq_iff "a" "b")

abbrev coordinator : ClusterCoordinator
coordinator = record {
  registry = registry;
  local_node = node "b" 7 active;
  leader_id = some "b";
  term = 3;
}

a_wins : (start_election lex coordinator).0.leader_id ≡ some "a"
unfolding start_election ClusterCoordinator.winner ClusterCoordinator.first_of earlier lex
    Map.values
a_wins = refl

-- The same nodes, in another order, with other loads and seen from another node.
abbrev other : ClusterCoordinator
other = record {
  registry = record registry {
    nodes = ("a", node "a" 3 active) ∷ ("b", node "b" 2 active) ∷ [];
    local_node_id = "a";
  };
  local_node = node "a" 9 active;
  leader_id = none;
  term = 0;
}

nodes-AreDistinct : AreDistinct lex (get_active_nodes coordinator.registry)
unfolding Map.values lex
nodes-AreDistinct n m i j start h k = elim i [
  | inl p ↦ elim j [
    | inl q ↦ ap (λ (x : NodeInfo). x.id) (p ∙ sym q)
    | inr (inl q) ↦
        let less : false ≡ true = sym k ∙ (λ t. lex (q t).id (p t).id) in absurd (cc less)
    | inr (inr z) ↦ elim z [ ]
  ]
  | inr (inl p) ↦ elim j [
    | inl q ↦ let less : false ≡ true = sym h ∙ (λ t. lex (p t).id (q t).id) in absurd (cc less)
    | inr (inl q) ↦ ap (λ (x : NodeInfo). x.id) (p ∙ sym q)
    | inr (inr z) ↦ elim z [ ]
  ]
  | inr (inr z) ↦ elim z [ ]
]

nodes-Covers : Covers (get_active_nodes coordinator.registry) (get_active_nodes other.registry)
unfolding Map.values
nodes-Covers n i = elim i [
  | inl p ↦ (
    node "b" 2 active,
    inr (inl refl),
    ap (λ (x : NodeInfo). x.id) (sym p),
    ap (λ (x : NodeInfo). x.started_at) (sym p),
  )
  | inr (inl p) ↦ (
    node "a" 3 active,
    inl refl,
    ap (λ (x : NodeInfo). x.id) (sym p),
    ap (λ (x : NodeInfo). x.started_at) (sym p),
  )
  | inr (inr z) ↦ elim z [ ]
]

other-Covers : Covers (get_active_nodes other.registry) (get_active_nodes coordinator.registry)
unfolding Map.values
other-Covers n i = elim i [
  | inl p ↦ (
    node "a" 9 active,
    inr (inl refl),
    ap (λ (x : NodeInfo). x.id) (sym p),
    ap (λ (x : NodeInfo). x.started_at) (sym p),
  )
  | inr (inl p) ↦ (
    node "b" 7 active,
    inl refl,
    ap (λ (x : NodeInfo). x.id) (sym p),
    ap (λ (x : NodeInfo). x.started_at) (sym p),
  )
  | inr (inr z) ↦ elim z [ ]
]

some_node : get_active_nodes coordinator.registry ≢ []
unfolding Map.values
some_node e = cc

elections_agree_example :
    (start_election lex coordinator).0.leader_id ≡ (start_election lex other).0.leader_id
elections_agree_example =
    elections_agree lex coordinator other lex-IsOrder nodes-AreDistinct nodes-Covers other-Covers
      some_node

b_leads : is_leader coordinator ≡ true
b_leads = refl
