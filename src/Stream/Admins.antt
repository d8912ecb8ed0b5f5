-- ===== src/Stream/Admins.antt =====
-- The admins of a stream in src/routes/service/serviceLive.js, and who is kicked out of it. A host is an
-- admin's for all streams: the table `liveStreamAdmin` and the set `host:admins:<host>` are its, the
-- set `stream:admins:<stream>` is one stream's. Sets are lists of their members.
pub mod Toggle
use live_server.Common.{
  ℕ, ◌+◌, ◌-◌, Bool, true, false, ◌&&◌, ◌||◌, not, Option, none, some, or_else, is_some, List, [],
  ◌∷◌, ◌++◌, contains, ◌==◌, ltb, if◌then◌else◌,
}
use live_server.Common.Store.{Store}

pub record Admins : Type 0 where
  pub of_stream : ℕ → List ℕ
  pub of_host : ℕ → List ℕ
  pub rows : ℕ → List ℕ

-- `sRem` and `sAdd`
abbrev pub without : List ℕ → ℕ → List ℕ
without [] u = []
without (a ∷ ms) u = if a == u then without ms u else a ∷ without ms u

abbrev pub with_member : List ℕ → ℕ → List ℕ
with_member ms u = if contains ms u then ms else u ∷ ms

abbrev pub at : (ℕ → List ℕ) → ℕ → List ℕ → ℕ → List ℕ
at m k v j = if j == k then v else m j

-- Whether Redis is open and whether the database answers: its failures are passed over.
pub record Up : Type 0 where
  pub redis_open : Bool
  pub database : Bool

abbrev found_row : Bool → Admins → ℕ → ℕ → Admins × Bool
found_row redis_open a h u =
    if contains (a.rows h) u
    then (
      if redis_open then record a { of_host = at a.of_host h (with_member (a.of_host h) u) } else a,
      true,
    )
    else (a, false)

abbrev by_host : Up → Admins → Option ℕ → ℕ → Admins × Bool
by_host up a none u = (a, false)
by_host up a (some h) u =
    if up.redis_open && contains (a.of_host h) u
    then (a, true)
    else if up.database
    then found_row up.redis_open a h u
    else (a, false)

-- `isStreamAdminService`; the host is the argument, or the stream's.
unfoldable pub is_stream_admin : Up → Admins → ℕ → Option ℕ → ℕ → Admins × Bool
is_stream_admin up a stream host u =
    if up.redis_open && contains (a.of_stream stream) u then (a, true) else by_host up a host u

abbrev stream_set : Up → Admins → ℕ → List ℕ → Admins
stream_set up a stream v =
    if up.redis_open then record a { of_stream = at a.of_stream stream v } else a

abbrev host_set : Up → Admins → Option ℕ → (List ℕ → List ℕ) → Admins
host_set up a none f = a
host_set up a (some h) f = record a {
  of_host = if up.redis_open then at a.of_host h (f (a.of_host h)) else a.of_host;
  rows = if up.database then at a.rows h (f (a.rows h)) else a.rows;
}

-- Both of the writes of a stream and of a host.
abbrev pub both_sets : Up → Admins → ℕ → Option ℕ → (List ℕ → List ℕ) → Admins
both_sets up a stream host f = host_set up (stream_set up a stream (f (a.of_stream stream))) host f

-- `promoteDemoteAdminService`, whose answer is whether the user is an admin from now on.
unfoldable pub promote_demote_admin : Up → Admins → ℕ → Option ℕ → ℕ → Admins × Bool
promote_demote_admin up a stream host u =
    let (a', was) = is_stream_admin up a stream host u in
    if was
    then (both_sets up a' stream host (λ s. without s u), false)
    else (both_sets up a' stream host (λ s. with_member s u), true)

abbrev pub host_admins : Up → Admins → Option ℕ → List ℕ
host_admins up a none = []
host_admins up a (some h) =
    (if up.redis_open then a.of_host h else []) ++ (if up.database then a.rows h else [])

-- `getStreamAdminsService`, up to the order and the duplicates that its `Set` drops.
unfoldable pub get_stream_admins : Up → Admins → ℕ → Option ℕ → List ℕ
get_stream_admins up a stream host =
    (if up.redis_open then a.of_stream stream else []) ++ host_admins up a host

-- The keys `stream:kicked:<stream>:<user>`, with the times at which they are gone, and the viewers.
pub record Kicks : Type 0 where
  pub until : ℕ → ℕ → Option ℕ
  pub viewers : ℕ → List ℕ
  pub stream_admins : ℕ → List ℕ

-- EX: 600
abbrev pub kick_ms : ℕ
kick_ms = 600000

unfoldable pub kick_user : Kicks → ℕ → ℕ → ℕ → Kicks
kick_user k stream u now = record {
  until = λ s v. if (s == stream) && (v == u) then some (now + kick_ms) else k.until s v;
  viewers = at k.viewers stream (without (k.viewers stream) u);
  stream_admins = at k.stream_admins stream (without (k.stream_admins stream) u);
}

abbrev still_kicked : Option ℕ → ℕ → Option ℕ
still_kicked none now = none
still_kicked (some until) now = if ltb now until then some (until - now) else none

-- `isUserKickedService`: null, or the ms that are left.
unfoldable pub is_user_kicked : Kicks → ℕ → ℕ → ℕ → Option ℕ
is_user_kicked k stream u now = still_kicked (k.until stream u) now
