-- ===== src/Cluster.antt =====
-- src/services/cluster.service.js: the primitives that let several nodes share one Redis.
pub mod Leader
pub mod Timers
