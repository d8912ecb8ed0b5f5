-- ===== src/Live.antt =====
-- src/routes/service: watching live streams.
pub mod Presence
pub mod Monitor
pub mod HostStatus
