-- ===== src/Lib.antt =====
-- Verification of the core of SYNC_ENGINE, a server that keeps game state in step over a cluster.
--
-- The program's parts. Clients reach a node through the network layer, which frames bytes
-- (src/network/protocol.ts) and holds their connections (src/network/websocket-server.ts), behind
-- rate limiters (src/security/rate-limiter.ts) and accounts (src/security/auth.ts). Inside a node the
-- components talk over channels of the message broker (src/core/message-broker.ts), which keeps its
-- recent messages in a ring buffer (src/utils/buffer-pool.ts). The cluster's registry of nodes
-- (src/cluster/node-registry.ts) follows heartbeats, and the coordinator
-- (src/cluster/cluster-coordinator.ts) elects a leader from it. The game servers of a node
-- (src/orchestration/game-server-manager.ts) take the players that the matchmaker
-- (src/orchestration/matchmaker.ts) groups. The state itself is a tree of values per entity
-- (src/core/state-manager.ts). The synchronizer (src/sync/state-synchronizer.ts) sends its deltas over
-- the broker, compressed (src/sync/delta-compressor.ts), and takes those of others; two versions of
-- an entity are reconciled by the conflict resolver (src/sync/conflict-resolver.ts). The deltas are
-- logged (src/persistence/write-ahead-log.ts), and the whole state is saved from time to time
-- (src/persistence/snapshot-manager.ts). Alerts watch over measured values
-- (src/monitoring/alerting.ts).
--
-- Which file models what. A class is a record of its fields, a method is a function of the same name
-- in snake case from the state and the arguments to the state after it and its answer; events that it
-- emits, calls that it makes of handlers and tasks that it leaves to timers are part of the answer or
-- of the state. The clock, new identifiers, the configuration and `localeCompare` are arguments.
--   Base: JavaScript's Map, arrays and stable sort, with the lemmas that the parts share.
--   Utils.RingBuffer, Utils.BufferPool: src/utils/buffer-pool.ts.
--   Security.RateLimiter, Security.TieredRateLimiter: src/security/rate-limiter.ts.
--   Security.AuthService: src/security/auth.ts. A call that awaits a hash is two functions, before and
--     after the await, so that calls can overlap.
--   Network.Protocol: src/network/protocol.ts.
--   Network.WebSocketServer: src/network/websocket-server.ts, over Network.Protocol. What it does with
--     sockets and handlers is a list of outputs.
--   Network.ConnectionPool: src/network/connection-pool.ts. A call of acquire is two functions, before and
--     after its await, and the arrays that such calls share stand in a store.
--   Core.Types, Core.Value, Core.Json: src/core/types.ts, the values of a record, and what JSON makes of
--     them.
--   Core.MessageBroker: src/core/message-broker.ts, over Utils.RingBuffer.
--   Core.EventBus: src/core/event-bus.ts, over the emitter of a library.
--   Core.StateManager: src/core/state-manager.ts. Its entities are objects in a store, to which the
--     manager and its snapshots hold references.
--   Cluster.NodeRegistry, Cluster.ClusterCoordinator: the two files of src/cluster.
--   Orchestration.GameServerManager, Orchestration.Matchmaker: the two files of src/orchestration.
--   Sync.ConflictResolver, Sync.DeltaCompressor: the files of those names in src/sync.
--   Sync.StateSynchronizer: src/sync/state-synchronizer.ts, over Core.StateManager and the two above.
--   Persistence.WriteAheadLog: src/persistence/write-ahead-log.ts, over a directory of files of lines.
--   Persistence.SnapshotManager: src/persistence/snapshot-manager.ts, over Core.StateManager and the log.
--   Monitoring.AlertManager: src/monitoring/alerting.ts.
-- Below each of them a module is named for what it proves; Tests holds runs at fixed inputs.
--
-- Bounds and fuel. Numbers are naturals; a field of the wire format keeps its remainder written out,
-- and the sequence number of a packet wraps at 2^16. The loop that cuts a queue into groups and the
-- loop that reads a batch run on fuel: each round of the first takes a request, and each of the
-- second four bytes, so the length of the queue and one, and the number of bytes, are enough. The
-- numbers among the values of an entity are integers.
--
-- What is not modelled. Sockets, HTTP, logging, the interval timers and the dashboard are input and
-- output around these parts. Files are kept as what they hold and do not fail to be read. `async`
-- handlers are run to their end where they are called, but for the calls that are split at their await.
-- A handler or filter of the broker is a function of the message that returns or throws: it does not
-- call the broker again while a message is delivered. An object or array among the values of an
-- entity or an operation is its contents: the source stores the value of a set or an append by
-- reference, so the models of the state are those of values that nothing else holds.
-- The token library, the hash and the texts that JSON makes are parameters; of a snapshot's file the
-- model keeps what JSON reads in its text. A skill rating and a load
-- are naturals. In the
-- models of the parts, what they emit on the event bus is a list of events; where nothing depends on
-- them (the matchmaker and the broker) they are left out. The emitter below the bus is a parameter.
-- The collector of metrics has no model here.
pub mod Base
pub mod Cluster
pub mod Core
pub mod Monitoring
pub mod Network
pub mod Orchestration
pub mod Persistence
pub mod Security
pub mod Sync
pub mod Utils
