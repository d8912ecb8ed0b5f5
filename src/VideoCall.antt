-- ===== src/VideoCall.antt =====
-- src/modules/videoCall: paid one-to-one calls.
pub mod Session
pub mod EndCall
pub mod Initiate
pub mod Disconnect
pub mod InitiateLock
pub mod Reject
pub mod EndRace
pub mod Billing
pub mod Heartbeats
pub mod Deadlines
pub mod Sweep
pub mod Accept
