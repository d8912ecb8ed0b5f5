-- ===== src/Examples.antt =====
-- The theorems at concrete inputs, and runs of the definitions.
mod Utils
mod Services
mod Cluster
mod VideoCall
mod Calls
mod Access
mod Live
mod LuckyGift
mod Stream
mod Rooms
mod Gifts
mod Chat
mod Admin
