-- ===== src/Utils/TierLock/Floor.antt =====
-- On src/utils/agencyTierLock.js. The level that a total reaches, and what a lock does to it.
use mathlib.Core.List.{
  reverse, reverse-append, reverse-cons, append_assoc, Mem, mem-cons_self, mem-cons_of_mem,
}
use Prim.Native.String.{String}
use text.Mathlib.Text.{◌==◌ as str_eq}
use live_server.Common.{
  ℕ, ◌≡◌, refl, ◌∙◌, ap, true, false, some, List, [], ◌∷◌, ◌++◌, map, arith, All, if◌then◌else◌,
  ltb, Bool-cases, inl, inr,
}
use live_server.Common.Int.{ℤ, pos, ◌+ℤ◌, ◌-ℤ◌, ◌≤ℤ◌, leb_ℤ, ltb_ℤ, int_laws, +ℤ_parts, eq_of_parts}
use live_server.Utils.TierLock.{
  TierLock, Level, is_agency_tier_lock_active, compute_tier_lock_bonus, max_ℤ,
  effective_tier_window_total, rank, higher_level, first_reached, match_agency_level,
}

abbrev pub Above : ℤ → Level → Type 0
Above total l = leb_ℤ l.min_window_points total ≡ false

All-append : (P : Level → Type 0) (xs ys : List Level) → All P xs → All P ys → All P (xs ++ ys)
All-append P [] ys h k = k
All-append P (x ∷ xs) ys h k = (h.0, All-append P xs ys h.1 k)

All-reverse : (P : Level → Type 0) (xs : List Level) → All P xs → All P (reverse xs)
All-reverse P [] h = h
All-reverse P (x ∷ xs) h =
    rw (reverse-cons x xs) (All-append P (reverse xs) (x ∷ []) (All-reverse P xs h.1) (h.0, tt))

first_reached_skips :
    (total : ℤ) (xs ys : List Level) (d : String)
    → All (Above total) xs
    → first_reached total (xs ++ ys) d ≡ first_reached total ys d
unfolding first_reached
first_reached_skips total [] ys d h = refl
first_reached_skips total (x ∷ xs) ys d h = ground (arith, first_reached_skips total xs ys d h.1)

reverse_ladder :
    (xs ys : List Level) (row : Level) → reverse (xs ++ row ∷ ys) ≡ reverse ys ++ row ∷ reverse xs
reverse_ladder xs ys row =
    rw (reverse-append xs (row ∷ ys), reverse-cons row ys)
      (append_assoc (reverse ys) (row ∷ []) (reverse xs))

-- The matched level is the last of the ladder whose minimum the total reaches: a level that is reached,
-- with no level above it reached, is the match.
pub match-highest_reached :
    (total : ℤ) (xs ys : List Level) (row : Level)
    → row.min_window_points ≤ℤ total
    → All (Above total) ys
    → match_agency_level total (xs ++ row ∷ ys) ≡ row.level
unfolding match_agency_level first_reached
match-highest_reached total xs ys row h above = rw (reverse_ladder xs ys row) (
    first_reached_skips total (reverse ys) (row ∷ reverse xs) _ (All-reverse (Above total) ys above)
    ∙ ground arith)

first_reached_hit :
    (P : String → Type 0) (total : ℤ) (xs ys : List Level) (row : Level) (d : String)
    → row.min_window_points ≤ℤ total
    → All (λ l. P l.level) xs
    → P row.level
    → P (first_reached total (xs ++ row ∷ ys) d)
unfolding first_reached
first_reached_hit P total [] ys row d h hx p = ground arith
first_reached_hit P total (x ∷ xs) ys row d h hx p =
    ground (arith, first_reached_hit P total xs ys row d h hx.1 p)

levels_in :
    (xs ys : List Level)
    → All (λ l. Mem l.level (map (λ r. r.level) ys)) xs
    → (y : Level) → All (λ l. Mem l.level (map (λ r. r.level) (y ∷ ys))) xs
levels_in [] ys h y = tt
levels_in (x ∷ xs) ys h y = (mem-cons_of_mem _ h.0, levels_in xs ys h.1 y)

levels_self : (ys : List Level) → All (λ l. Mem l.level (map (λ r. r.level) ys)) ys
levels_self [] = tt
levels_self (y ∷ ys) = (mem-cons_self, levels_in ys ys (levels_self ys) y)

locked_floor :
    (actual floor : ℤ) (lock : TierLock) (now : ℕ)
    → is_agency_tier_lock_active (some lock) now ≡ true
    → floor ≤ℤ (effective_tier_window_total actual (some lock) (some floor) now).0
unfolding effective_tier_window_total ◌+ℤ◌
locked_floor actual floor lock now active = ground arith

match_in :
    (total : ℤ) (xs ys : List Level) (row : Level)
    → row.min_window_points ≤ℤ total
    → Mem (match_agency_level total (xs ++ row ∷ ys)) (map (λ l. l.level) (row ∷ ys))
unfolding match_agency_level
match_in total xs ys row h =
    let P = λ (s : String). Mem s (map (λ (l : Level). l.level) (row ∷ ys)) in
    rw (reverse_ladder xs ys row) (
      first_reached_hit P total (reverse ys) (reverse xs) row _ h
        (All-reverse (λ l. P l.level) ys (levels_in ys ys (levels_self ys) row)) mem-cons_self)

-- While a lock on a level is active, the level matched by the effective total is that level or one
-- above it on the ladder, whatever the actual total is.
pub match-effective_locked :
    (actual : ℤ) (lock : TierLock) (now : ℕ) (xs ys : List Level) (row : Level)
    → is_agency_tier_lock_active (some lock) now ≡ true
    → Mem
        (match_agency_level
          (effective_tier_window_total actual (some lock) (some row.min_window_points) now).0
          (xs ++ row ∷ ys))
        (map (λ l. l.level) (row ∷ ys))
match-effective_locked actual lock now xs ys row active =
    match_in _ xs ys row (locked_floor actual row.min_window_points lock now active)

-- The lock that an admin assigns.
abbrev pub assigned : ℕ → String → ℤ → ℤ → TierLock
assigned until lvl min_points actual = record {
  tier_lock_until = some until;
  tier_lock_level = some lvl;
  tier_lock_bonus_points = some (compute_tier_lock_bonus min_points actual);
}

max-add_gain : (a gain : ℤ) → pos 0 ≤ℤ gain → max_ℤ (a +ℤ gain) a ≡ a +ℤ gain
max-add_gain a gain g = ground (arith, +ℤ_parts a gain, eq_of_parts a (a +ℤ gain))

bonus_lifts :
    (min_points actual gain : ℤ)
    → pos 0 ≤ℤ gain
    → max_ℤ (actual +ℤ gain +ℤ (min_points -ℤ actual)) min_points ≡ min_points +ℤ gain
bonus_lifts m a gain g =
    let e : a +ℤ gain +ℤ (m -ℤ a) ≡ m +ℤ gain = omega int_laws in
    ap (λ t. max_ℤ t m) e ∙ max-add_gain m gain g

-- At the assignment the bonus lifts the total to the level's minimum exactly, and every point gained
-- from there on counts in full, until the lock runs out, when the bonus no longer counts.
pub effective-assigned :
    (min_points actual gain : ℤ) (until now : ℕ) (lvl : String)
    → str_eq lvl "" ≡ false
    → pos 0 ≤ℤ gain
    → effective_tier_window_total
        (actual +ℤ gain)
        (some (assigned until lvl min_points actual))
        (some min_points)
        now
      ≡ (if ltb now until then (min_points +ℤ gain, true) else (actual +ℤ gain, false))
unfolding effective_tier_window_total compute_tier_lock_bonus
effective-assigned min_points actual gain until now lvl named g =
    elim (Bool-cases (ltb now until)) [
      | inl e ↦ rw (e, named) (ap (λ t. (t, true)) (bonus_lifts min_points actual gain g))
      | inr e ↦ rw e
    ]

-- The higher level of two has the larger rank of the two.
pub higher-level_rank :
    (a b : String) (levels : List Level)
    → (rank a levels ≤ℤ rank (higher_level a b levels) levels)
      × (rank b levels ≤ℤ rank (higher_level a b levels) levels)
unfolding higher_level
higher-level_rank a b levels = elim (Bool-cases (ltb_ℤ (rank a levels) (rank b levels))) [
  | inl e ↦ rw e (ground arith, ground arith)
  | inr e ↦ rw e (ground arith, ground arith)
]
