-- ===== src/Stream.antt =====
-- src/routes/service: a live stream from its start to its end, and what its host and viewers do in it.
pub mod Duration
pub mod Camera
pub mod Windows
pub mod Table
pub mod Keys
pub mod End
pub mod Moderation
pub mod Seats
pub mod HostGrace
pub mod Admins
pub mod Permissions
pub mod GoLive
pub mod Gifts
pub mod Chat
pub mod History
