-- ===== src/Services/TierRecompute.antt =====
-- src/services/agencyTierRecompute.service.js, for one agency. What the two sums over the ledger are is a
-- parameter; the statements on the row of `agencies` are written out. Times are in ms since 1970.
pub mod Daily
use Prim.Native.String.{String}
use text.Mathlib.Text.{◌==◌ as str_eq}
use live_server.Common.{
  ℕ, zero, suc, ◌+◌, ◌-◌, ◌*◌, ◌/◌, ◌%◌, max, Bool, true, false, ◌&&◌, not, Option, none, some,
  or_else, is_some, List, [], ◌∷◌, ◌==◌, if◌then◌else◌,
}
use live_server.Common.Int.{ℤ, pos, ◌+ℤ◌}
use live_server.Utils.TierLock.{
  TierLock, Level, effective_tier_window_total, higher_level, match_agency_level,
}

-- A row of `agencies`; the lock is its three columns.
pub record Agency : Type 0 where
  pub current_level : String
  pub last_level_recomputed_at : Option ℕ
  pub lock : TierLock
  pub window_total : ℤ

-- The duration of the window in `agency_commission_config`; `none` where it cannot be read.
pub record Duration : Type 0 where
  pub days : ℕ
  pub hours : ℕ
  pub minutes : ℕ

pub record Settings : Type 0 where
  pub duration : Option Duration
  pub include_host_earnings : Bool
  pub include_agency_commission : Bool
  -- the sums from a time to another, and the levels by their minimum
  pub host_earnings : ℕ → ℕ → ℤ
  pub agency_commission : ℕ → ℕ → ℤ
  pub levels : List Level

abbrev pub day_ms : ℕ
day_ms = 86400000

abbrev pub utc_day : ℕ → ℕ
utc_day now = now / day_ms

abbrev pub utc_start_of_day : ℕ → ℕ
utc_start_of_day now = utc_day now * day_ms

abbrev minutes_of : Option Duration → ℕ
minutes_of none = 43200
minutes_of (some d) = d.days * 24 * 60 + d.hours * 60 + d.minutes

abbrev pub total_minutes : Settings → ℕ
total_minutes c = max 1 (minutes_of c.duration)

pub record Bounds : Type 0 where
  pub from : ℕ
  pub to_exclusive : ℕ

unfoldable pub resolve_rolling_window_bounds : Settings → ℕ → Bounds
resolve_rolling_window_bounds c now = record {
  from =
      (if total_minutes c % 1440 == 0 then utc_start_of_day now else now) - total_minutes c * 60000;
  to_exclusive = now;
}

unfoldable pub resolve_tier_window_total : Settings → ℕ → ℤ
resolve_tier_window_total c now =
    let b = resolve_rolling_window_bounds c now in
    (if c.include_host_earnings then c.host_earnings b.from b.to_exclusive else pos 0)
    +ℤ (if c.include_agency_commission then c.agency_commission b.from b.to_exclusive else pos 0)

-- `levels.find((l) => l.level === name)`, its minimum.
abbrev minimum_of : List Level → String → Option ℤ
minimum_of [] name = none
minimum_of (l ∷ ls) name =
    if str_eq l.level name then some l.min_window_points else minimum_of ls name

abbrev minimum_of_lock : List Level → Option String → Option ℤ
minimum_of_lock levels none = none
minimum_of_lock levels (some name) = if str_eq name "" then none else minimum_of levels name

abbrev pub effective_at : Settings → TierLock → ℕ → ℤ × Bool
effective_at c lock now =
    effective_tier_window_total (resolve_tier_window_total c now) (some lock)
      (minimum_of_lock c.levels lock.tier_lock_level) now

-- The level of a day: the higher of the one at 00:00 and the one so far.
unfoldable pub evaluated_level : Settings → TierLock → ℕ → String
evaluated_level c lock now =
    higher_level (match_agency_level (effective_at c lock (utc_start_of_day now)).0 c.levels)
      (match_agency_level (effective_at c lock now).0 c.levels) c.levels

abbrev no_lock : TierLock
no_lock = record { tier_lock_until = none; tier_lock_level = none; tier_lock_bonus_points = none }

abbrev lock_of : Option Agency → TierLock
lock_of none = no_lock
lock_of (some a) = a.lock

abbrev pub last_of : Option Agency → Option ℕ
last_of none = none
last_of (some a) = a.last_level_recomputed_at

abbrev same_time : Option ℕ → Option ℕ → Bool
same_time none none = true
same_time (some a) (some b) = a == b
same_time none (some b) = false
same_time (some a) none = false

abbrev pub same_day : Option ℕ → ℕ → Bool
same_day none now = false
same_day (some last) now = utc_day last == utc_day now

-- What the UPDATE sets: a lock that was not active at 00:00 is dropped.
abbrev pub evaluated : Settings → TierLock → ℕ → Agency → Agency
evaluated c lock now a = record {
  current_level = evaluated_level c lock now;
  last_level_recomputed_at = some now;
  lock = if (effective_at c lock (utc_start_of_day now)).1 then a.lock else no_lock;
  window_total = resolve_tier_window_total c now;
}

-- The UPDATE, where `last_level_recomputed_at` is as it was read, and its count.
abbrev compare_and_set : Settings → TierLock → Option ℕ → ℕ → Option Agency → Option Agency × ℕ
compare_and_set c lock prev now none = (none, 0)
compare_and_set c lock prev now (some a) =
    if same_time a.last_level_recomputed_at prev
    then (some (evaluated c lock now a), 1)
    else (some a, 0)

pub data Recompute : Type 0 where
  -- undefined, null, and the level
  done_today exhausted : Recompute
  recomputed : String → Recompute

-- The attempts that are left, from attempt `k` on: `nows k` is its time, and `between k` what others do to
-- the row between its read and its update.
attempts :
    Settings
    → Bool
    → (ℕ → ℕ)
    → (ℕ → Option Agency → Option Agency)
    → ℕ
    → ℕ
    → Option Agency
    → Option Agency × Recompute
attempts c skip nows between zero k row = (row, exhausted)
attempts c skip nows between (suc left) k row =
    let now = nows k in
    let (row', count) = compare_and_set c (lock_of row) (last_of row) now (between k row) in
    let rest = attempts c skip nows between left (k + 1) row' in
    if not skip && same_day (last_of row) now
    then (row, done_today)
    else if count == 1
    then (row', recomputed (evaluated_level c (lock_of row) now))
    else rest

-- MAX_CAS_ATTEMPTS
abbrev pub max_cas_attempts : ℕ
max_cas_attempts = 5

unfoldable pub recompute_agency_level :
    Settings
    → Bool
    → (ℕ → ℕ)
    → (ℕ → Option Agency → Option Agency)
    → Option Agency
    → Option Agency × Recompute
unfolding attempts
recompute_agency_level c skip nows between row = attempts c skip nows between max_cas_attempts 0 row

-- The two UPDATEs of a refresh.
abbrev raised : String → String → ℤ → Option Agency → Option Agency × Bool
raised seen reached total none = (none, false)
raised seen reached total (some a) =
    if str_eq a.current_level seen
    then (some (record a { current_level = reached; window_total = total }), true)
    else (some a, false)

abbrev with_total : ℤ → Option Agency → Option Agency
with_total total none = none
with_total total (some a) = some (record a { window_total = total })

abbrev total_unless : ℤ → Option Agency × Bool → Option Agency
total_unless total (row, true) = row
total_unless total (row, false) = with_total total row

abbrev pub reached_level : Settings → TierLock → ℕ → String
reached_level c lock now = match_agency_level (effective_at c lock now).0 c.levels

abbrev raise_or_total : Settings → Agency → ℕ → Option Agency → Option Agency
raise_or_total c seen now row =
    let reached = reached_level c seen.lock now in
    let total = resolve_tier_window_total c now in
    if str_eq (higher_level reached seen.current_level c.levels) seen.current_level
    then with_total total row
    else total_unless total (raised seen.current_level reached total row)

-- `between` is what others do to the row between its read and its update.
unfoldable pub refresh_window_progress :
    Settings → (ℕ → ℕ) → (ℕ → Option Agency → Option Agency) → ℕ → Option Agency → Option Agency
refresh_window_progress c nows between now none = none
refresh_window_progress c nows between now (some a) =
    if not (same_day a.last_level_recomputed_at now)
    then (recompute_agency_level c false nows between (some a)).0
    else raise_or_total c a now (between 0 (some a))
