-- ===== src/Services/CallRate.antt =====
-- src/services/callRate.service.js: the caller's coin price per video-call minute.
pub mod Price
pub mod Share
use live_server.Common.{
  ℕ, ◌+◌, ◌-◌, ◌*◌, ◌/◌, Bool, ◌&&◌, Option, none, some, leb, ◌==◌, if◌then◌else◌,
}
use live_server.Common.Int.{ℤ, pos_part}
use live_server.Services.ConfigCache.{Memo, Call, get}

-- The row of `host:revenue-shares`, in either spelling of its one field that is read: a field that
-- is missing, or is not a whole number of zero or more, is `none`.
pub record ShareRow : Type 0 where
  pub camel : Option (Option ℕ)
  pub snake : Option (Option ℕ)

abbrev pub default_video_call_host_share_bp : ℕ
default_video_call_host_share_bp = 6000

abbrev pub valid : ℕ → Bool
valid v = leb 1000 v && leb v 10000

-- `camel ?? snake`, then `Number(…)`.
abbrev pub number_of : Option (Option ℕ) → Option (Option ℕ) → Option ℕ
number_of none none = none
number_of none (some v) = v
number_of (some v) snake = v

abbrev pub if_valid : Option ℕ → Option ℕ
if_valid none = none
if_valid (some v) = if valid v then some v else none

unfoldable pub pick : Option ShareRow → Option ℕ
pick none = none
pick (some src) = if_valid (number_of src.camel src.snake)

unfoldable pub get_video_call_host_share_bp : Memo ℕ → Call ShareRow → ℕ × Memo ℕ
unfolding get
get_video_call_host_share_bp = get pick default_video_call_host_share_bp

-- `price` is a whole number, as `Math.trunc` leaves it; a price that is no number counts as 0.
unfoldable pub caller_coins_per_minute : ℤ → ℕ → ℕ
caller_coins_per_minute price_per_min host_share_bp =
    let price = pos_part price_per_min in
    if price == 0 then 0 else (price * 10000 + host_share_bp - 1) / host_share_bp

unfoldable pub current_caller_coins_per_minute : Memo ℕ → Call ShareRow → ℤ → ℕ × Memo ℕ
unfolding get_video_call_host_share_bp caller_coins_per_minute
current_caller_coins_per_minute memo c price_per_min =
    let (bp, memo') = get_video_call_host_share_bp memo c in
    (caller_coins_per_minute price_per_min bp, memo')
