-- ===== src/Utils/TokenBucket.antt =====
-- src/utils/tokenBucket.js: token buckets. Refill rates are in thousandths of a token per second and
-- tokens in millionths, which is exact for the rates in use (0.2 to 30 per second) and a clock in ms.
-- A clock reading is never earlier than the one before it.
pub mod Rate
pub mod Prune
use live_server.Common.{
  ℕ, ◌+◌, ◌-◌, ◌*◌, min, Bool, true, false, Option, none, some, ltb, leb, if◌then◌else◌,
}
use live_server.Common.Store.{Store, put}

pub record Bucket : Type 0 where
  pub tokens : ℕ
  pub at : ℕ

-- One token.
abbrev pub token : ℕ
token = 1000000

refill : ℕ → ℕ → Bucket → ℕ → Bucket
refill capacity per_sec b now = record {
  tokens = min (token * capacity) (b.tokens + (now - b.at) * per_sec);
  at = now;
}

spend : Bucket → Bucket × Bool
spend b = if leb token b.tokens then (record b { tokens = b.tokens - token }, true) else (b, false)

abbrev current : ℕ → ℕ → Option Bucket → ℕ → Bucket
current capacity per_sec none now = record { tokens = token * capacity; at = now }
current capacity per_sec (some b) now = refill capacity per_sec b now

-- `takeToken`: `none` is a state whose `tokens` is undefined.
unfoldable pub take_token : ℕ → ℕ → Option Bucket → ℕ → Bucket × Bool
unfolding refill spend
take_token capacity per_sec s now = spend (current capacity per_sec s now)

pub record TokenBuckets : Type 0 where
  pub capacity : ℕ
  pub refill_per_sec : ℕ
  pub idle_ms : ℕ
  pub buckets : Store Bucket

-- `TokenBuckets.take`
unfoldable pub take : TokenBuckets → ℕ → ℕ → TokenBuckets × Bool
take t key now =
    let (b, allowed) = take_token t.capacity t.refill_per_sec (t.buckets key) now in
    (record t { buckets = put t.buckets key b }, allowed)

unless_idle : ℕ → ℕ → Option Bucket → Option Bucket
unless_idle idle_ms now none = none
unless_idle idle_ms now (some b) = if ltb idle_ms (now - b.at) then none else some b

-- `TokenBuckets.prune`
unfoldable pub prune : TokenBuckets → ℕ → TokenBuckets
unfolding unless_idle
prune t now = record t { buckets = λ k. unless_idle t.idle_ms now (t.buckets k) }
