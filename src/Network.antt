-- ===== src/Network.antt =====
-- src/network: the binary protocol, the server of the clients' sockets and the pool of connections.
pub mod Protocol
pub mod WebSocketServer
pub mod ConnectionPool
mod Tests
