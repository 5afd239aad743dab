-- ===== src/Orchestration.antt =====
-- src/orchestration: the game servers and the matchmaker that fills them.
pub mod GameServerManager
pub mod Matchmaker
mod Tests
