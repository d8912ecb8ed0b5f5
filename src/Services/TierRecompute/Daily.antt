-- ===== src/Services/TierRecompute/Daily.antt =====
-- On src/services/agencyTierRecompute.service.js. What a day does to the level of an agency.
use Prim.Native.String.{String}
use text.Mathlib.Text.{◌==◌ as str_eq}
use text.Mathlib.TextEquality.{eq_iff}
use live_server.Common.{
  ℕ, ◌*◌, ◌%◌, ◌≤◌, ◌≡◌, refl, Bool, true, false, Option, some, arith, if◌then◌else◌, Bool-cases,
  inl, inr, ap, sym, subst, ◌-◌, List,
}
use live_server.Common.Int.{ℤ, pos, ◌+ℤ◌, ◌≤ℤ◌, ltb_ℤ, +ℤ_parts}
use live_server.Utils.TierLock.{Level, rank, higher_level}
use live_server.Services.TierRecompute.{
  Agency, Settings, day_ms, utc_day, total_minutes, resolve_rolling_window_bounds,
  resolve_tier_window_total, evaluated, evaluated_level, same_day, recomputed, done_today,
  recompute_agency_level, refresh_window_progress, reached_level,
}

abbrev undisturbed : ℕ → Option Agency → Option Agency
undisturbed k row = row

-- An agency that has not been evaluated on the day of `nows 0`, and whose row nobody else writes
-- meanwhile, is evaluated at the first attempt, and a second evaluation on the same day changes nothing.
pub evaluated_once_a_day :
    (c : Settings) (a : Agency) (nows later : ℕ → ℕ)
    → same_day a.last_level_recomputed_at (nows 0) ≡ false
    → utc_day (later 0) ≡ utc_day (nows 0)
    → let (row, result) = recompute_agency_level c false nows undisturbed (some a) in
      (row ≡ some (evaluated c a.lock (nows 0) a))
      × (result ≡ recomputed (evaluated_level c a.lock (nows 0)))
      × (recompute_agency_level c false later undisturbed row ≡ (row, done_today))
unfolding recompute_agency_level
evaluated_once_a_day c a nows later fresh same =
    (ground (arith, fresh), ground (arith, fresh), ground (arith, fresh, same))

kept_higher :
    (levels : List Level) (reached seen : String)
    → str_eq (higher_level reached seen levels) seen ≡ false
    → rank seen levels ≤ℤ rank reached levels
unfolding higher_level
kept_higher levels reached seen h =
    elim (Bool-cases (ltb_ℤ (rank reached levels) (rank seen levels))) [
      | inl e ↦ absurd (ground (arith, h, e, (eq_iff seen seen).1 refl))
      | inr e ↦ ground (arith, e)
    ]

-- A refresh of an agency that has been evaluated on that day does not lower the level that its row has
-- when the update comes, whatever others have made of the row since it was read.
pub refresh_never_lowers :
    (c : Settings) (a b : Agency) (nows : ℕ → ℕ) (between : ℕ → Option Agency → Option Agency)
    (now : ℕ)
    → same_day a.last_level_recomputed_at now ≡ true
    → between 0 (some a) ≡ some b
    → (after : Agency) × (refresh_window_progress c nows between now (some a) ≡ some after)
      × (rank b.current_level c.levels ≤ℤ rank after.current_level c.levels)
unfolding refresh_window_progress
refresh_never_lowers c a b nows between now today e =
    let reached : String = reached_level c a.lock now in
    let total : ℤ = resolve_tier_window_total c now in
    elim (Bool-cases (str_eq (higher_level reached a.current_level c.levels) a.current_level)) [
      | inl kept ↦ (record b { window_total = total }, ground (arith, today, e, kept), ground arith)
      | inr more ↦ elim (Bool-cases (str_eq b.current_level a.current_level)) [
        | inl same ↦ (
          record b { current_level = reached; window_total = total },
          ground (arith, today, e, more, same),
          subst (λ l. rank l c.levels ≤ℤ rank reached c.levels)
              (sym ((eq_iff b.current_level a.current_level).0 same))
              (kept_higher c.levels reached a.current_level more),
        )
        | inr moved ↦
            (record b { window_total = total }, ground (arith, today, e, more, moved), ground arith)
      ]
    ]

sum_mono :
    (b c : Bool) (x x' y y' : ℤ)
    → x ≤ℤ x'
    → y ≤ℤ y'
    → (if b then x else pos 0) +ℤ (if c then y else pos 0)
      ≤ℤ (if b then x' else pos 0) +ℤ (if c then y' else pos 0)
sum_mono true true x x' y y' h k = ground (arith, +ℤ_parts x y, +ℤ_parts x' y')
sum_mono true false x x' y y' h k = ground (arith, +ℤ_parts x (pos 0), +ℤ_parts x' (pos 0))
sum_mono false true x x' y y' h k = ground (arith, +ℤ_parts (pos 0) y, +ℤ_parts (pos 0) y')
sum_mono false false x x' y y' h k = ground arith

same_from :
    (c : Settings) (now later : ℕ)
    → total_minutes c % 1440 ≡ 0
    → utc_day now ≡ utc_day later
    → (resolve_rolling_window_bounds c later).from ≡ (resolve_rolling_window_bounds c now).from
unfolding resolve_rolling_window_bounds
same_from c now later whole same =
    rw whole (ap (λ d. d * day_ms - total_minutes c * 60000) (sym same))

-- Over whole days, the window of a moment starts where the window of an earlier moment of the same UTC
-- day does, so its total is no smaller, as long as more of a ledger sums to no less.
pub window_grows_within_day :
    (c : Settings) (now later : ℕ)
    → total_minutes c % 1440 ≡ 0
    → now ≤ later
    → utc_day now ≡ utc_day later
    → ((from : ℕ) → c.host_earnings from now ≤ℤ c.host_earnings from later)
    → ((from : ℕ) → c.agency_commission from now ≤ℤ c.agency_commission from later)
    → resolve_tier_window_total c now ≤ℤ resolve_tier_window_total c later
unfolding resolve_tier_window_total resolve_rolling_window_bounds
window_grows_within_day c now later whole order same earned paid =
    let from : ℕ = (resolve_rolling_window_bounds c now).from in
    rw (same_from c now later whole same) (
      sum_mono c.include_host_earnings c.include_agency_commission (c.host_earnings from now)
        (c.host_earnings from later) (c.agency_commission from now) (c.agency_commission from later)
        (earned from) (paid from))
