-- ===== src/Access.antt =====
-- Who may call: the access-token checks of REST and socket.io, and the rejoin decision.
pub mod Session
pub mod SocketAuth
pub mod Rejoin
pub mod Payload
pub mod EventGuard
