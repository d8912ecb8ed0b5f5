-- ===== src/Stream/Admins/Toggle.antt =====
-- On src/routes/service/serviceLive.js. Who is an admin after a promotion or a demotion.
use live_server.Common.{
  ℕ, ◌+◌, ◌-◌, ◌≤◌, ◌≡◌, refl, Bool, true, false, ◌&&◌, ◌||◌, not, Option, none, some, List, [],
  ◌∷◌, ◌++◌, contains, arith, ◌==◌, ltb, if◌then◌else◌, Bool-cases, inl, inr,
}
use live_server.Stream.Admins.{
  Admins, Up, without, with_member, is_stream_admin, promote_demote_admin, get_stream_admins,
  both_sets, host_admins, Kicks, kick_user, is_user_kicked, kick_ms,
}

contains-without :
    (s : List ℕ) (u v : ℕ) → contains (without s u) v ≡ (not (u == v) && contains s v)
contains-without [] u v = ground arith
contains-without (a ∷ s) u v = ground (arith, contains-without s u v)

contains-with_member :
    (s : List ℕ) (u v : ℕ) → contains (with_member s u) v ≡ ((u == v) || contains s v)
contains-with_member s u v = elim (Bool-cases (contains s u)) [
  | inl e ↦ ground (arith, e)
  | inr e ↦ ground (arith, e)
]

contains-append : (s t : List ℕ) (v : ℕ) → contains (s ++ t) v ≡ (contains s v || contains t v)
contains-append [] t v = refl
contains-append (a ∷ s) t v = ground (arith, contains-append s t v)

abbrev answering : Bool → Up
answering redis_open = record { redis_open = redis_open; database = true }

removed_is_none :
    (redis_open : Bool) (a : Admins) (stream h u : ℕ)
    → (is_stream_admin
        (answering redis_open)
        (both_sets (answering redis_open) a stream (some h) (λ s. without s u))
        stream
        (some h)
        u).1
      ≡ false
unfolding is_stream_admin
removed_is_none true a stream h u = ground (
  arith,
  contains-without (a.of_stream stream) u u,
  contains-without (a.of_host h) u u,
  contains-without (a.rows h) u u,
)
removed_is_none false a stream h u = ground (arith, contains-without (a.rows h) u u)

added_is_one :
    (redis_open : Bool) (a : Admins) (stream h u : ℕ)
    → (is_stream_admin
        (answering redis_open)
        (both_sets (answering redis_open) a stream (some h) (λ s. with_member s u))
        stream
        (some h)
        u).1
      ≡ true
unfolding is_stream_admin
added_is_one true a stream h u = ground (arith, contains-with_member (a.of_stream stream) u u)
added_is_one false a stream h u = ground (arith, contains-with_member (a.rows h) u u)

-- While the database answers, a promotion or a demotion of a user under a known host makes the user an
-- admin who was none, and none who was an admin, and answers which.
pub promote_toggles :
    (redis_open : Bool) (a : Admins) (stream h u : ℕ)
    → let (a', answer) = promote_demote_admin (answering redis_open) a stream (some h) u in
      (answer ≡ not (is_stream_admin (answering redis_open) a stream (some h) u).1)
      × ((is_stream_admin (answering redis_open) a' stream (some h) u).1 ≡ answer)
unfolding promote_demote_admin
promote_toggles redis_open a stream h u =
    let up : Up = answering redis_open in
    let a' : Admins = (is_stream_admin up a stream (some h) u).0 in
    elim (Bool-cases (is_stream_admin up a stream (some h) u).1) [
      | inl e ↦ rw e (refl, removed_is_none redis_open a' stream h u)
      | inr e ↦ rw e (refl, added_is_one redis_open a' stream h u)
    ]

-- The list of admins of a stream has exactly the users whom the check takes for admins, whether or not
-- Redis is open and the database answers.
pub get_stream_admins-is_stream_admin :
    (up : Up) (a : Admins) (stream u : ℕ) (host : Option ℕ)
    → contains (get_stream_admins up a stream host) u ≡ (is_stream_admin up a stream host u).1
unfolding get_stream_admins is_stream_admin
get_stream_admins-is_stream_admin up a stream u none = elim (Bool-cases up.redis_open) [
  | inl e ↦ rw e (ground (arith, contains-append (a.of_stream stream) [] u))
  | inr e ↦ rw e (refl)
]
get_stream_admins-is_stream_admin up a stream u (some h) = elim (Bool-cases up.redis_open) [
  | inl e ↦ rw e (
      ground (
        arith,
        contains-append (a.of_stream stream) (host_admins up a (some h)) u,
        contains-append (a.of_host h) (if up.database then a.rows h else []) u,
      ))
  | inr e ↦ rw e (ground arith)
]

-- A user who is kicked out of a stream is kept out of it for ten minutes and no longer, is among neither
-- its viewers nor its own admins, and nobody else is kept out longer or shorter than before.
pub kicked_ten_minutes :
    (k : Kicks) (stream u now later s v : ℕ)
    → now ≤ later
    → let k' = kick_user k stream u now in
      (is_user_kicked k' s v later ≡ (
        if (s == stream) && (v == u)
        then (if ltb later (now + kick_ms) then some (now + kick_ms - later) else none)
        else is_user_kicked k s v later))
      × (contains (k'.viewers stream) u ≡ false)
      × (contains (k'.stream_admins stream) u ≡ false)
unfolding kick_user is_user_kicked
kicked_ten_minutes k stream u now later s v h = (
  ground arith,
  ground (arith, contains-without (k.viewers stream) u u),
  ground (arith, contains-without (k.stream_admins stream) u u),
)
