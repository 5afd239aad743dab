-- ===== src/Cluster/NodeRegistry/Health.antt =====
-- The life of a node in the registry: what heartbeats and health checks can do to its status.
use mathlib.Core.Option
use sync_engine.Base.{
  ℕ, ◌+◌, ◌-◌, ◌*◌, ◌≤◌, ◌<◌, ◌≡◌, ◌≢◌, refl, fun_ext, ap, ◌∙◌, ◌⊎◌, inl, inr, String, Bool, true,
  false, Option, some, List, [], ◌∷◌, arith, ltb, any, str_eq, eq_iff, if◌then◌else◌, Bool-cases,
  Option-cases,
}
use sync_engine.Base.Map
use sync_engine.Base.Map.Laws.{
  get-set, get-set_self, Distinct-set, any-keys, NoRepeat, keys-NoRepeat,
}
use sync_engine.Core.Types.{NodeStatus, active, offline, suspect, NodeInfo}
use sync_engine.Cluster.NodeRegistry.{
  NodeRegistry, refreshed, update_heartbeat, judged, judge_node, check_one, check_ids,
  check_node_health, get_node,
}

-- The changes of status that the registry makes by itself.
pub data Change (timeout silence : ℕ) : NodeStatus → NodeStatus → Type 0 where
  suspected : timeout < silence → Change timeout silence active suspect
  lost : timeout * 2 < silence → Change timeout silence suspect offline
  kept : (s : NodeStatus) → Change timeout silence s s

suspected_or_kept :
    (timeout silence : ℕ) (b : Bool)
    → ltb timeout silence ≡ b
    → Change timeout silence active (if b then suspect else active)
suspected_or_kept timeout silence true e = suspected (ground arith)
suspected_or_kept timeout silence false e = kept active

lost_or_kept :
    (timeout silence : ℕ) (a b : Bool)
    → ltb (timeout * 2) silence ≡ b
    → Change timeout silence suspect (if a then (if b then offline else suspect) else suspect)
lost_or_kept timeout silence true true e = lost (ground arith)
lost_or_kept timeout silence true false e = kept suspect
lost_or_kept timeout silence false b e = kept suspect

unmoved :
    (timeout silence : ℕ) (b : Bool) (s : NodeStatus)
    → Change timeout silence s (if b then s else s)
unmoved timeout silence true s = kept s
unmoved timeout silence false s = kept s

judged-Change :
    (timeout silence : ℕ) (s : NodeStatus) → Change timeout silence s (judged timeout silence s)
unfolding judged
judged-Change timeout silence active = suspected_or_kept timeout silence (ltb timeout silence) refl
judged-Change timeout silence suspect = lost_or_kept timeout silence (ltb timeout silence) _ refl
judged-Change timeout silence s = unmoved timeout silence (ltb timeout silence) s

get-check_one :
    (r : NodeRegistry) (now : ℕ) (id k : String)
    → Map.get (check_one r now id).0.nodes k ≡ (
        if str_eq id k
        then Option.map (judge_node r now id) (Map.get r.nodes k)
        else Map.get r.nodes k)
unfolding check_one
get-check_one r now id k = elim (Option-cases (Map.get r.nodes id)) [
  | inl e ↦ rw (e, check_one) (ground (arith, eq_iff id k))
  | inr (node, e) ↦
      rw (e, check_one)
        (ground (arith, eq_iff id k, get-set r.nodes id k (judge_node r now id node)))
]

same_judge :
    (r : NodeRegistry) (now : ℕ) (id k : String)
    → judge_node (check_one r now id).0 now k ≡ judge_node r now k
unfolding check_one judge_node
same_judge r now id k = elim (Option-cases (Map.get r.nodes id)) [
  | inl e ↦ fun_ext λ node. rw (e, check_one) refl
  | inr (x, e) ↦ fun_ext λ node. rw (e, check_one) refl
]

get-check_ids :
    (r : NodeRegistry) (now : ℕ) (ids : List String) (k : String)
    → NoRepeat ids
    → Map.get (check_ids r now ids).0.nodes k ≡ (
        if any (str_eq k) ids
        then Option.map (judge_node r now k) (Map.get r.nodes k)
        else Map.get r.nodes k)
unfolding check_ids
get-check_ids r now [] k n = refl
get-check_ids r now (id ∷ ids) k n =
    get-check_ids (check_one r now id).0 now ids k n.1
    ∙ rw same_judge (ground (arith, eq_iff id k, eq_iff k id, n.0, get-check_one r now id k))

-- A health check judges every node but the local one once, by the time since its last heartbeat, and
-- adds or removes none.
pub check_node_health-judges :
    (r : NodeRegistry) (now : ℕ) (k : String)
    → Map.Distinct r.nodes
    → get_node (check_node_health r now).0 k ≡ Option.map (judge_node r now k) (get_node r k)
unfolding check_node_health
check_node_health-judges r now k d =
    get-check_ids r now (Map.keys r.nodes) k (keys-NoRepeat r.nodes d)
    ∙ ground (arith, any-keys r.nodes k)

judge_node-status :
    (r : NodeRegistry) (now : ℕ) (k : String) (node : NodeInfo)
    → judge_node r now k node ≡ record node { status = (judge_node r now k node).status }
unfolding judge_node
judge_node-status r now k node = ground arith

judge_node_local :
    (r : NodeRegistry) (now : ℕ) (k : String) (node : NodeInfo)
    → str_eq k r.local_node_id ≡ true
    → (judge_node r now k node).status ≡ node.status
unfolding judge_node
judge_node_local r now k node e = rw e refl

judge_node-Change :
    (r : NodeRegistry) (now : ℕ) (k : String) (node : NodeInfo)
    → Change r.heartbeat_timeout
        (now - node.last_heartbeat)
        node.status
        (judge_node r now k node).status
unfolding judge_node
judge_node-Change r now k node = elim (Bool-cases (str_eq k r.local_node_id)) [
  | inl e ↦ rw e (kept node.status)
  | inr e ↦ rw e (judged-Change r.heartbeat_timeout (now - node.last_heartbeat) node.status)
]

-- In a registry whose keys are distinct, a health check changes the status of a node from active
-- to suspect after a silence longer than the timeout, from suspect to offline after one longer
-- than twice the timeout, and in no other way; the local node's status stays, and nothing but the
-- status of a node changes.
pub check_node_health-Change :
    (r : NodeRegistry) (now : ℕ) (k : String) (node : NodeInfo)
    → Map.Distinct r.nodes
    → get_node r k ≡ some node
    → (s : NodeStatus) × (get_node (check_node_health r now).0 k
        ≡ some (record node { status = s }))
      × Change r.heartbeat_timeout (now - node.last_heartbeat) node.status s
      × (k ≡ r.local_node_id → s ≡ node.status)
check_node_health-Change r now k node d e = (
  (judge_node r now k node).status,
  check_node_health-judges r now k d ∙ rw e (ap some (judge_node-status r now k node)),
  judge_node-Change r now k node,
  λ p. ground (arith, eq_iff k r.local_node_id, judge_node_local r now k node),
)

check_one_keeps :
    (r : NodeRegistry) (now : ℕ) (id : String)
    → let r' = (check_one r now id).0 in
      (r'.heartbeat_timeout ≡ r.heartbeat_timeout)
      × (r'.local_node_id ≡ r.local_node_id)
      × (Map.Distinct r.nodes → Map.Distinct r'.nodes)
unfolding check_one
check_one_keeps r now id = elim (Option-cases (Map.get r.nodes id)) [
  | inl e ↦ rw (e, check_one) (refl, refl, λ d. d)
  | inr (node, e) ↦ rw (e, check_one) (refl, refl, λ d. Distinct-set r.nodes id _ d)
]

check_ids_keeps :
    (r : NodeRegistry) (now : ℕ) (ids : List String)
    → let r' = (check_ids r now ids).0 in
      (r'.heartbeat_timeout ≡ r.heartbeat_timeout)
      × (r'.local_node_id ≡ r.local_node_id)
      × (Map.Distinct r.nodes → Map.Distinct r'.nodes)
unfolding check_ids
check_ids_keeps r now [] = (refl, refl, λ d. d)
check_ids_keeps r now (id ∷ ids) =
    let one = check_one_keeps r now id in
    let later = check_ids_keeps (check_one r now id).0 now ids in
    (later.0 ∙ one.0, later.1 ∙ one.1, λ d. later.2 (one.2 d))

pub check_node_health_keeps :
    (r : NodeRegistry) (now : ℕ)
    → let r' = (check_node_health r now).0 in
      (r'.heartbeat_timeout ≡ r.heartbeat_timeout)
      × (r'.local_node_id ≡ r.local_node_id)
      × (Map.Distinct r.nodes → Map.Distinct r'.nodes)
unfolding check_node_health
check_node_health_keeps r now = check_ids_keeps r now (Map.keys r.nodes)

-- In a registry whose keys are distinct, a remote node that is active or suspect and has been
-- silent for more than twice the timeout is offline after two health checks.
pub silent_node_goes_offline :
    (r : NodeRegistry) (t u : ℕ) (k : String) (node : NodeInfo)
    → Map.Distinct r.nodes
    → get_node r k ≡ some node
    → k ≢ r.local_node_id
    → (node.status ≡ active) ⊎ (node.status ≡ suspect)
    → node.last_heartbeat + r.heartbeat_timeout * 2 < t
    → t ≤ u
    → get_node (check_node_health (check_node_health r t).0 u).0 k
      ≡ some (record node { status = offline })
silent_node_goes_offline r t u k node d e ne s h le =
    let r1 = (check_node_health r t).0 in
    let same = check_node_health_keeps r t in
    let once : get_node r1 k ≡ some (judge_node r t k node) =
      check_node_health-judges r t k d ∙ ap (Option.map (judge_node r t k)) e in
    check_node_health-judges r1 u k (same.2 d)
    ∙ rw once
        (unfold judge_node judged in rw (same.0, same.1) (ground (arith, eq_iff k r.local_node_id)))

stored_fresh :
    (r : NodeRegistry) (now : ℕ) (k : String) (load connections : Option ℕ) (node : NodeInfo)
    → get_node r k ≡ some node
    → get_node (update_heartbeat r k load connections now) k
      ≡ some (refreshed now load connections node)
unfolding update_heartbeat
stored_fresh r now k load connections node e = rw (e, update_heartbeat) (get-set_self r.nodes k _)

update_heartbeat-Distinct :
    (r : NodeRegistry) (now : ℕ) (k : String) (load connections : Option ℕ)
    → Map.Distinct r.nodes
    → Map.Distinct (update_heartbeat r k load connections now).nodes
unfolding update_heartbeat
update_heartbeat-Distinct r now k load connections d = elim (Option-cases (Map.get r.nodes k)) [
  | inl e ↦ rw (e, update_heartbeat) d
  | inr (node, e) ↦ rw (e, update_heartbeat) (Distinct-set r.nodes k _ d)
]

-- In a registry whose keys are distinct, a heartbeat of a known node refreshes it, and a health
-- check within the timeout after the heartbeat leaves the node as the heartbeat made it.
pub heartbeat_protects :
    (r : NodeRegistry) (now later : ℕ) (k : String) (load connections : Option ℕ) (node : NodeInfo)
    → Map.Distinct r.nodes
    → get_node r k ≡ some node
    → later ≤ now + r.heartbeat_timeout
    → let r' = update_heartbeat r k load connections now in
      (get_node r' k ≡ some (refreshed now load connections node))
      × (get_node (check_node_health r' later).0 k ≡ get_node r' k)
heartbeat_protects r now later k load connections node d e le =
    let r' = update_heartbeat r k load connections now in
    let fresh = refreshed now load connections node in
    let stored : get_node r' k ≡ some fresh = stored_fresh r now k load connections node e in
    (
      stored,
      check_node_health-judges r' later k (update_heartbeat-Distinct r now k load connections d)
          ∙ rw stored (
              unfold judge_node judged update_heartbeat in rw (e, update_heartbeat) (ground arith)),
    )
