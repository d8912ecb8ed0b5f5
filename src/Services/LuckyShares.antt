-- ===== src/Services/LuckyShares.antt =====
-- src/services/luckyShares.service.js and src/modules/luckyGift/hostEarning.engine.js: the lucky-gift
-- admin settings, and the host's cut that one of them sets.
pub mod Cut
use live_server.Common.{ℕ, ◌*◌, ◌/◌, Bool, ◌&&◌, Option, none, some, leb, ltb, if◌then◌else◌}
use live_server.Services.ConfigCache.{Memo, Call, get}
use live_server.Services.CallRate.{number_of}

pub record Shares : Type 0 where
  pub lucky_host_share_bp : ℕ
  pub lucky_target_rtp_bp : ℕ

-- The stored row: its two fields, each in two spellings.
pub record SharesRow : Type 0 where
  pub host_camel : Option (Option ℕ)
  pub host_snake : Option (Option ℕ)
  pub rtp_camel : Option (Option ℕ)
  pub rtp_snake : Option (Option ℕ)

pub record Range : Type 0 where
  pub low : ℕ
  pub high : ℕ

abbrev pub host_range : Range
host_range = record { low = 0; high = 2000 }

abbrev pub rtp_range : Range
rtp_range = record { low = 5000; high = 9900 }

abbrev pub defaults : Shares
defaults = record { lucky_host_share_bp = 400; lucky_target_rtp_bp = 9200 }

abbrev pub valid : ℕ → Range → Bool
valid v r = leb r.low v && leb v r.high

abbrev pub both_valid : Option ℕ → Option ℕ → Option Shares
both_valid none rtp = none
both_valid (some host) none = none
both_valid (some host) (some rtp) =
    if valid host host_range && valid rtp rtp_range
    then some (record { lucky_host_share_bp = host; lucky_target_rtp_bp = rtp })
    else none

unfoldable pub pick : Option SharesRow → Option Shares
pick none = none
pick (some src) =
    both_valid (number_of src.host_camel src.host_snake) (number_of src.rtp_camel src.rtp_snake)

unfoldable pub get_lucky_shares : Memo Shares → Call SharesRow → Shares × Memo Shares
unfolding get
get_lucky_shares = get pick defaults

-- Host points for a cost; costs and shares are not negative here, so the last test is on 0.
unfoldable pub calculate_host_earning : ℕ → ℕ → ℕ
calculate_host_earning total_cost host_share_bp =
    let host_points = total_cost * host_share_bp / 10000 in
    if ltb 0 host_points then host_points else 0
