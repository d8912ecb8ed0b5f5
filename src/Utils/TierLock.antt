-- ===== src/Utils/TierLock.antt =====
-- src/utils/agencyTierLock.js. Points are `BigInt`s. A ladder is a list of levels, lowest first.
pub mod Floor
use mathlib.Core.List.{reverse}
use Prim.Native.String.{String}
use text.Mathlib.Text.{◌==◌ as str_eq}
use live_server.Common.{
  ℕ, Bool, true, false, ◌&&◌, not, Option, none, some, List, [], ◌∷◌, ltb, if◌then◌else◌, is_some,
}
use live_server.Common.Int.{ℤ, negsuc, ◌+ℤ◌, ◌-ℤ◌, ltb_ℤ, leb_ℤ}

-- `until` is in epoch milliseconds.
pub record TierLock : Type 0 where
  pub tier_lock_until : Option ℕ
  pub tier_lock_level : Option String
  pub tier_lock_bonus_points : Option ℤ

pub record Level : Type 0 where
  pub level : String
  pub min_window_points : ℤ

abbrev after : Option ℕ → ℕ → Bool
after none now = false
after (some t) now = ltb now t

abbrev is_named : Option String → Bool
is_named none = false
is_named (some s) = not (str_eq s "")

-- A missing lock is `none`.
unfoldable pub is_agency_tier_lock_active : Option TierLock → ℕ → Bool
is_agency_tier_lock_active none now = false
is_agency_tier_lock_active (some l) now =
    after l.tier_lock_until now && is_named l.tier_lock_level && is_some l.tier_lock_bonus_points

unfoldable pub compute_tier_lock_bonus : ℤ → ℤ → ℤ
compute_tier_lock_bonus min_window_points actual = min_window_points -ℤ actual

abbrev pub max_ℤ : ℤ → ℤ → ℤ
max_ℤ a b = if ltb_ℤ b a then a else b

-- The bonus of an active lock is there; the first clauses are the ones that an inactive lock takes.
locked_total : ℤ → Option ℤ → Option ℤ → ℤ × Bool
locked_total actual none floor = (actual, false)
locked_total actual (some bonus) none = (actual, false)
locked_total actual (some bonus) (some floor) = (max_ℤ (actual +ℤ bonus) floor, true)

abbrev bonus_of : Option TierLock → Option ℤ
bonus_of none = none
bonus_of (some l) = l.tier_lock_bonus_points

-- The effective total, and whether the lock counts.
unfoldable pub effective_tier_window_total : ℤ → Option TierLock → Option ℤ → ℕ → ℤ × Bool
unfolding locked_total is_agency_tier_lock_active
effective_tier_window_total actual lock floor now =
    if is_agency_tier_lock_active lock now
    then locked_total actual (bonus_of lock) floor
    else (actual, false)

-- A level that is not on the ladder ranks at -1.
pub rank : String → List Level → ℤ
rank lvl [] = negsuc 0
rank lvl (l ∷ ls) = if str_eq l.level lvl then l.min_window_points else rank lvl ls

unfoldable pub higher_level : String → String → List Level → String
higher_level a b levels = if ltb_ℤ (rank a levels) (rank b levels) then b else a

-- The loop of `matchAgencyLevel` from the highest level down.
first_reached : ℤ → List Level → String → String
first_reached total [] new_level = new_level
first_reached total (row ∷ rows) new_level =
    if leb_ℤ row.min_window_points total then row.level else first_reached total rows new_level

abbrev pub lowest : List Level → String
lowest [] = "D"
lowest (l ∷ ls) = l.level

unfoldable pub match_agency_level : ℤ → List Level → String
unfolding first_reached
match_agency_level total levels = first_reached total (reverse levels) (lowest levels)
