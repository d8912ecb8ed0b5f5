-- ===== src/Stream/Windows.antt =====
-- `calculate1130DateRanges` of src/routes/service/serviceLive.js. An instant is in ms since 1970, a
-- calendar day is the number of days since January 1, 1970. The windows start some days before now,
-- which a number without sign holds from the second week of 1970 on.
pub mod Holds
use live_server.Common.{ℕ, ◌+◌, ◌-◌, ◌*◌, ◌/◌, ◌%◌, Bool, ◌&&◌, ◌||◌, ◌==◌, leb, ltb, if◌then◌else◌}

pub record Window : Type 0 where
  pub start : ℕ
  pub end : ℕ

abbrev pub day_ms : ℕ
day_ms = 86400000

-- 5.5 * 3600 * 1000
abbrev pub ist_offset_ms : ℕ
ist_offset_ms = 19800000

-- The calendar day in India: `y`, `m` and `d` together.
abbrev pub ist_day : ℕ → ℕ
ist_day now = (now + ist_offset_ms) / day_ms

-- `Date.UTC(y, m, d, 18, 0, 0, 0)`
abbrev pub at_18_utc : ℕ → ℕ
at_18_utc day = day * day_ms + 64800000

-- `getUTCDay`: January 1, 1970 was a Thursday.
abbrev pub day_of_week : ℕ → ℕ
day_of_week day = (day + 4) % 7

unfoldable pub today : ℕ → Window
today now =
    let day = ist_day now in
    if leb (at_18_utc day) now
    then record { start = at_18_utc day; end = at_18_utc (day + 1) }
    else record { start = at_18_utc (day - 1); end = at_18_utc day }

unfoldable pub days_since_sunday : ℕ → ℕ
days_since_sunday now =
    let day = ist_day now in
    if (day_of_week day == 0) && ltb now (at_18_utc day) then 7 else day_of_week day

-- The start of the day that the week starts on is at 18:00 UTC, so the date of it taken at 18:00 is it.
unfoldable pub this_week : ℕ → Window
unfolding today days_since_sunday
this_week now =
    let start = (today now).start - days_since_sunday now * day_ms in
    record { start = start; end = start + 7 * day_ms }

-- The Gregorian calendar, which `Date` has: years that start in March, so that a leap day is the last
-- day of one, in eras of 400.
abbrev day_of_era : ℕ → ℕ
day_of_era day = (day + 719468) % 146097

abbrev year_of_era : ℕ → ℕ
year_of_era doe = (doe - doe / 1460 + doe / 36524 - doe / 146096) / 365

abbrev day_of_year : ℕ → ℕ → ℕ
day_of_year doe yoe = doe - (365 * yoe + yoe / 4 - yoe / 100)

-- 0 is March
abbrev month_of_year : ℕ → ℕ
month_of_year doy = (5 * doy + 2) / 153

abbrev is_leap : ℕ → Bool
is_leap yoe = (yoe % 4 == 0) && (ltb 0 (yoe % 100) || (yoe == 0))

-- February belongs to the civil year after the one that started in March.
abbrev days_in_month : ℕ → ℕ → ℕ
days_in_month mp yoe =
    if mp == 11
    then (if is_leap ((yoe + 1) % 400) then 29 else 28)
    else (153 * (mp + 1) + 2) / 5 - (153 * mp + 2) / 5

-- `getUTCDate`
unfoldable pub day_of_month : ℕ → ℕ
day_of_month day =
    let doe = day_of_era day in
    let doy = day_of_year doe (year_of_era doe) in doy - (153 * month_of_year doy + 2) / 5 + 1

unfoldable pub month_length : ℕ → ℕ
month_length day =
    let doe = day_of_era day in
    let yoe = year_of_era doe in days_in_month (month_of_year (day_of_year doe yoe)) yoe

-- The first of this month and the first of the next, at 18:00 UTC.
unfoldable pub this_month : ℕ → Window
unfolding day_of_month month_length
this_month now =
    let first = ist_day now - (day_of_month (ist_day now) - 1) in
    record { start = at_18_utc first; end = at_18_utc (first + month_length (ist_day now)) }
