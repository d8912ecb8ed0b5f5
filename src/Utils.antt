-- ===== src/Utils.antt =====
-- src/utils: the self-contained algorithms that the services are built from.
pub mod Breaker
pub mod TokenBucket
pub mod TierLock
pub mod ForEachLimit
pub mod Censor
pub mod CoinRestriction
