-- ===== src/Stream/Seats/Mutes.antt =====
-- On src/routes/service/serviceLive.js and socket-live-service.js. Who is muted on a seat.
use live_server.Common.{
  ℕ, ◌+◌, ◌<◌, ◌≡◌, refl, Bool, true, false, Option, none, some, List, [], ◌∷◌, arith, ◌==◌,
  if◌then◌else◌, ◌⊎◌, Bool-cases, inl, inr,
}
use live_server.Stream.Seats.{
  Seat, find_seat, set_seat, del_seat, with_mute, toggle_user_sheet_mute, Room, Event, handle,
  toggle_self_mute, mute_ms,
}

pub find-set_seat :
    (ss : List Seat) (n : Seat) (u : ℕ)
    → find_seat (set_seat ss n) u ≡ (if n.user_id == u then some n else find_seat ss u)
find-set_seat [] n u = ground arith
find-set_seat (s ∷ ss) n u = ground (arith, find-set_seat ss n u)

pub find-del_seat :
    (ss : List Seat) (d u : ℕ)
    → find_seat (del_seat ss d) u ≡ (if d == u then none else find_seat ss u)
find-del_seat [] d u = ground arith
find-del_seat (s ∷ ss) d u = ground (arith, find-del_seat ss d u)

pub find_seat-user_id :
    (ss : List Seat) (u : ℕ) (found : Seat) → find_seat ss u ≡ some found → found.user_id ≡ u
find_seat-user_id [] u found h = cc
find_seat-user_id (s ∷ ss) u found h = elim (Bool-cases (s.user_id == u)) [
  | inl e ↦ ground (arith, h, e)
  | inr e ↦ find_seat-user_id ss u found (ground (arith, h, e))
]

-- The seats of users under LIVE_AUDIO_MUTE are muted.
abbrev SeatMuted : Room → Option Seat → ℕ → Type 0
SeatMuted r none u = Unit
SeatMuted r (some s) u = (r.restricted u ≡ false) ⊎ (s.is_muted ≡ true)

abbrev pub RestrictedMuted : Room → List Seat → Type 0
RestrictedMuted r ss = (u : ℕ) → SeatMuted r (find_seat ss u) u

-- Socket events in the order in which they come, each at a time.
abbrev pub handled : Room → List Seat → List (Event × ℕ) → List Seat
handled r ss [] = ss
handled r ss ((e, now) ∷ es) = handled r (handle r ss e now).0 es

-- A user whom the host has muted at `at` cannot unmute themselves during the next 30 minutes, as long as
-- the seat is as the host left it.
pub self_unmute_refused :
    (r : Room) (ss : List Seat) (s : Seat) (u at now : ℕ)
    → find_seat ss u ≡ some (with_mute s true true at)
    → now < at + mute_ms
    → (handle r ss (toggle_self_mute u false) now).0 ≡ ss
unfolding handle
self_unmute_refused r ss s u at now e soon = elim (Bool-cases (r.restricted u)) [
  | inl m ↦ ground (arith, m)
  | inr m ↦ ground (arith, m, e)
]

self_mute_sets :
    (r : Room) (ss : List Seat) (s : Seat) (u now : ℕ) (on : Bool)
    → find_seat ss u ≡ some s
    → r.restricted u ≡ false
    → (on ≡ true) ⊎ (s.muted_by_host ≡ false)
    → find_seat (handle r ss (toggle_self_mute u on) now).0 u ≡ some (with_mute s on false now)
unfolding handle toggle_user_sheet_mute
self_mute_sets r ss s u now on e free may =
    ground
      (arith, free, e, find_seat-user_id ss u s e, find-set_seat ss (with_mute s on false now) u)

-- But a user who is not under LIVE_AUDIO_MUTE and who mutes themselves first, and unmutes then, is not
-- muted any more, whoever had muted the seat and until when.
pub self_mute_lifts_host_mute :
    (r : Room) (ss : List Seat) (s : Seat) (u first second : ℕ)
    → find_seat ss u ≡ some s
    → r.restricted u ≡ false
    → find_seat
        (handled r ss ((toggle_self_mute u true, first) ∷ (toggle_self_mute u false, second) ∷ []))
        u
      ≡ some (record s { is_muted = false; muted_by_host = false; muted_until = none })
self_mute_lifts_host_mute r ss s u first second e free =
    self_mute_sets r (handle r ss (toggle_self_mute u true) first).0 (with_mute s true false first)
      u second false (self_mute_sets r ss s u first true e free (inl refl)) free (inr refl)
