-- ===== src/Services/CallRate/Price.antt =====
-- On src/services/callRate.service.js. The ceiling division that sets the price.
use live_server.Common.{ℕ, zero, suc, ◌+◌, ◌-◌, ◌*◌, ◌/◌, ◌≤◌, ◌<◌, ◌≡◌, ◌↔◌, arith, false, ◌==◌}
use live_server.Common.Int.{pos}
use live_server.Services.CallRate.{caller_coins_per_minute, default_video_call_host_share_bp}

mul_mono : (m n d : ℕ) → m ≤ n → m * d ≤ n * d
mul_mono m n d h = grind arith

ceil_iff : (a d c : ℕ) → 0 < d → 0 < a → (a ≤ c * d) ↔ ((a + d - 1) / d ≤ c)
ceil_iff a d c h p = (
  λ le. ground (arith, mul_mono (c + 1) ((a + d - 1) / d) d),
  λ le. ground (arith, mul_mono ((a + d - 1) / d) c d),
)

-- The coins are the least whole number whose host share covers the price: an amount `c` is enough
-- for the host's points exactly if it is at least the computed one.
pub caller_coins-least :
    (price bp c : ℕ)
    → 0 < bp
    → (price * 10000 ≤ c * bp) ↔ (caller_coins_per_minute (pos price) bp ≤ c)
unfolding caller_coins_per_minute
caller_coins-least zero bp c h = (λ le. omega arith, λ le. omega arith)
caller_coins-least (suc p) bp c h =
    let positive : (suc p == 0) ≡ false = ground arith in
    rw positive (ceil_iff (suc p * 10000) bp c h (omega arith))

-- With the default share the price is that of the formula which it replaced, ceil(price * 5 / 3).
pub caller_coins-default :
    (price : ℕ)
    → caller_coins_per_minute (pos price) default_video_call_host_share_bp ≡ (price * 5 + 2) / 3
unfolding caller_coins_per_minute
caller_coins-default price = ground arith
