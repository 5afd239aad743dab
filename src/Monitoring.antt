-- ===== src/Monitoring.antt =====
-- src/monitoring: the alerts on measured values.
pub mod AlertManager
