-- ===== src/Utils/CoinRestriction.antt =====
-- src/utils/coinRestriction.js, and toggleUserCoinsFreezeService of src/routes/service/serviceAdmin.js, of
-- one user, with Redis open and answering. The check is in two parts, around its read of the table.
pub mod Race
use live_server.Common.{ℕ, ◌+◌, Bool, true, false, Option, none, some, ltb, if◌then◌else◌}

-- `user:coins_frozen:<user>`, with the time until which Redis has it.
pub record Flag : Type 0 where
  pub is_frozen : Bool
  pub expires_at : ℕ

-- `personal_coins_frozen` of the user, and the flag.
pub record Coins : Type 0 where
  pub personal_coins_frozen : Bool
  pub flag : Option Flag

-- EX: 300
abbrev pub flag_ms : ℕ
flag_ms = 300000

abbrev pub with_flag : ℕ → Bool → Coins → Coins
with_flag now frozen c = record c {
  flag = some (record { is_frozen = frozen; expires_at = now + flag_ms });
}

abbrev cached_flag : ℕ → Option Flag → Option Bool
cached_flag now none = none
cached_flag now (some f) = if ltb now f.expires_at then some f.is_frozen else none

-- A check that the flag answers, or one that has read the table: whether the coins are frozen.
pub data Checking : Type 0 where
  answered read_row : Bool → Checking

abbrev by_flag : Coins → Option Bool → Checking
by_flag c none = read_row c.personal_coins_frozen
by_flag c (some frozen) = answered frozen

unfoldable pub begin_check : ℕ → Coins → Checking
begin_check now c = by_flag c (cached_flag now c.flag)

-- Whether `checkCoinsFrozenFast` throws.
unfoldable pub end_check : ℕ → Coins → Checking → Coins × Bool
end_check now c (answered frozen) = (c, frozen)
end_check now c (read_row frozen) = (with_flag now frozen c, frozen)

-- With nothing in between.
unfoldable pub check_coins_frozen_fast : ℕ → Coins → Coins × Bool
unfolding begin_check end_check
check_coins_frozen_fast now c = end_check now c (begin_check now c)

-- `toggleUserCoinsFreezeService`
unfoldable pub toggle_user_coins_freeze : ℕ → Coins → Bool → Coins
toggle_user_coins_freeze now c is_frozen =
    with_flag now is_frozen (record c { personal_coins_frozen = is_frozen })
