-- ===== src/Cluster/ClusterCoordinator/Announce.antt =====
-- What a leader's answer to an announcement leads to. The broker delivers a message of the cluster's
-- channel to every subscriber, and the coordinator that publishes on the channel subscribes to it.
use sync_engine.Base.{
  ℕ, zero, suc, ◌≡◌, refl, ◌∙◌, ap, String, Bool, true, List, [], ◌∷◌, ◌++◌, map,
}
use sync_engine.Core.Types.{NodeInfo}
use sync_engine.Cluster.NodeRegistry.{Event, register_node}
use sync_engine.Cluster.ClusterCoordinator.{
  ClusterCoordinator, Message, node_announce, Output, bus, publish, leader_elected, is_leader,
  handle_message,
}

-- The messages among the outputs.
abbrev pub messages : List Output → List Message
messages [] = []
messages (publish m ∷ out) = m ∷ messages out
messages (bus e ∷ out) = messages out
messages (leader_elected l t ∷ out) = messages out

-- The messages still to be delivered to the coordinator after it has handled so many of them, each
-- adding what it publishes.
pub deliveries : (String → String → Bool) → ℕ → ℕ → ClusterCoordinator → List Message → List Message
deliveries before now zero c ms = ms
deliveries before now (suc n) c [] = []
deliveries before now (suc n) c (m ∷ ms) =
    let (c', out) = handle_message before now c m in deliveries before now n c' (ms ++ messages out)

messages-bus : (es : List Event) (out : List Output) → messages (map bus es ++ out) ≡ messages out
messages-bus [] out = refl
messages-bus (e ∷ es) out = messages-bus es out

leader_answers :
    (before : String → String → Bool) (now : ℕ) (c : ClusterCoordinator) (node : NodeInfo)
    → is_leader c ≡ true
    → let (c', out) = handle_message before now c (node_announce node) in
      (messages out ≡ node_announce c.local_node ∷ [])
      × (c'.local_node ≡ c.local_node)
      × (is_leader c' ≡ true)
unfolding handle_message
leader_answers before now c node e =
    (rw e (messages-bus (register_node c.registry node).1 _), refl, e)

-- A leader that hears one announcement never comes to rest: after any number of deliveries from
-- one on there is exactly one more announcement to deliver, the leader's own.
pub announcement_echoes :
    (before : String → String → Bool) (now n : ℕ) (c : ClusterCoordinator) (node : NodeInfo)
    → is_leader c ≡ true
    → deliveries before now (suc n) c (node_announce node ∷ []) ≡ node_announce c.local_node ∷ []
unfolding deliveries
announcement_echoes before now zero c node e = (leader_answers before now c node e).0
announcement_echoes before now (suc n) c node e =
    let answer = leader_answers before now c node e in
    let c' = (handle_message before now c (node_announce node)).0 in
    ap (λ ms. deliveries before now (suc n) c' ms) answer.0
    ∙ announcement_echoes before now n c' c.local_node answer.2
    ∙ ap (λ self. node_announce self ∷ []) answer.1
