-- ===== src/Utils/TokenBucket/Prune.antt =====
-- On src/utils/tokenBucket.js. What dropping idle keys changes.
use live_server.Common.{ℕ, ◌-◌, ◌*◌, ◌≤◌, ◌≡◌, refl, Option, none, some, arith}
use live_server.Utils.TokenBucket.{
  Bucket, TokenBuckets, token, take_token, take, unless_idle, prune,
}

-- A bucket that has been idle long enough to be full again behaves as a new one.
full_again :
    (c r : ℕ) (b : Bucket) (idle now later : ℕ)
    → token * c ≤ idle * r
    → idle ≤ now - b.at
    → now ≤ later
    → take_token c r (some b) later ≡ take_token c r none later
unfolding take_token
full_again c r b idle now later h i l = ground (arith, trickle)
  where
    trickle : token * c ≤ (later - b.at) * r
    trickle = grind arith

take_token-unless_idle :
    (c r idle now later : ℕ) (s : Option Bucket)
    → token * c ≤ idle * r
    → now ≤ later
    → take_token c r (unless_idle idle now s) later ≡ take_token c r s later
unfolding unless_idle
take_token-unless_idle c r idle now later none h l = refl
take_token-unless_idle c r idle now later (some b) h l =
    ground (arith, full_again c r b idle now later)

-- If a bucket fills up within the idle time, pruning at `now` changes no later answer for any key,
-- nor the bucket that the request leaves behind.
pub take-prune :
    (t : TokenBuckets) (now later key : ℕ)
    → token * t.capacity ≤ t.idle_ms * t.refill_per_sec
    → now ≤ later
    → ((take (prune t now) key later).1 ≡ (take t key later).1)
      × ((take (prune t now) key later).0.buckets key ≡ (take t key later).0.buckets key)
unfolding take prune
take-prune t now later key h l =
    ground (
      arith,
      take_token-unless_idle t.capacity t.refill_per_sec t.idle_ms now later (t.buckets key),
    )
