-- ===== src/Stream/Windows/Holds.antt =====
-- On src/routes/service/serviceLive.js. Which of the windows hold the moment that they are computed for.
use live_server.Common.{ℕ, ◌+◌, ◌%◌, ◌≤◌, ◌<◌, ◌≡◌, ◌↔◌, ◌⊎◌, inl, inr, arith, leb, Bool-cases}
use live_server.Stream.Windows.{Window, day_ms, ist_day, at_18_utc, today, this_month, day_of_month}

abbrev pub HoldsAt : Window → ℕ → Type 0
HoldsAt w now = (w.start ≤ now) × (now < w.end)

-- From 1970 on, the window of today holds now, lasts 24 hours, and starts at 18:00 UTC (23:30 in India).
pub today-HoldsAt :
    (now : ℕ)
    → day_ms ≤ now
    → HoldsAt (today now) now
      × ((today now).end ≡ (today now).start + day_ms)
      × ((today now).start % day_ms ≡ 64800000)
unfolding today
today-HoldsAt now h = elim (Bool-cases (leb (at_18_utc (ist_day now)) now)) [
  | inl e ↦ rw e (ground arith)
  | inr e ↦ rw e (ground arith)
]

day_of_month_pos : (day : ℕ) → 1 ≤ day_of_month day
unfolding day_of_month
day_of_month_pos day = omega arith

-- From 1970 on, the window of this month has begun, except before 23:30 on the first of a month in India.
pub this_month_begun_iff :
    (now : ℕ)
    → day_ms ≤ now
    → ((this_month now).start ≤ now)
      ↔ ((1 < day_of_month (ist_day now)) ⊎ (at_18_utc (ist_day now) ≤ now))
unfolding this_month
this_month_begun_iff now h = ground (arith, day_of_month_pos (ist_day now))
