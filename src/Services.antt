-- ===== src/Services.antt =====
-- src/services: configuration reads, the ledger client, and the tiers of agencies.
pub mod ConfigCache
pub mod CallRate
pub mod LuckyShares
pub mod Ledger
pub mod TierRecompute
