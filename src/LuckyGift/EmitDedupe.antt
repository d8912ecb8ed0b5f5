-- ===== src/LuckyGift/EmitDedupe.antt =====
-- src/modules/luckyGift/emitDedupe.js: the lucky events of a gift are emitted once. A transaction id is a
-- number; `none` is a missing or empty one.
pub mod Once
use live_server.Common.{ℕ, Bool, true, false, not, ◌&&◌, ◌||◌, Option, none, some, if◌then◌else◌}
use live_server.Common.Redis.{Redis}

-- TTL_SEC
abbrev pub ttl_ms : ℕ
ttl_ms = 86400000

-- Whether Redis answers; a client that is down throws.
pub data Link : Type 0 where
  up throws : Link

module _ (r : Redis) where
  open r use {State, set_nx}

  claim_by : Link → State → ℕ → ℕ → State × Bool
  claim_by up st id now = set_nx st id 1 now ttl_ms
  claim_by throws st id now = (st, true)

  -- `claimLuckyEmit`; `enabled` is `isLuckyEmitDedupeEnabled()`.
  unfoldable pub claim_lucky_emit : Bool → Link → State → Option ℕ → ℕ → State × Bool
  unfolding claim_by
  claim_lucky_emit enabled link st none now = (st, true)
  claim_lucky_emit enabled link st (some id) now =
      if not enabled then (st, true) else claim_by link st id now
