-- ===== src/Examples/Rooms.antt =====
-- The host, the admins and the seats of live streams at concrete inputs.
use live_server.Common.{
  ℕ, ◌≡◌, ◌≢◌, refl, true, false, Option, none, some, List, [], ◌∷◌, arith, ap, ◌∙◌, ◌==◌,
  if◌then◌else◌, contains, ==_refl, ◌&&◌,
}
use live_server.Common.Store.{Store, empty_store, put}
use live_server.Common.Redis.{concrete_redis}
use live_server.Stream.Camera.{no_camera_keys}
use live_server.Stream.Table.{Row, store_streams}
use live_server.Stream.End.{Answers}
use live_server.Stream.Seats.{Seat, find_seat, Room, toggle_self_mute}
use live_server.Stream.Seats.Mutes.{handled, self_mute_lifts_host_mute}
use live_server.Stream.HostGrace.{Found, Keys, on_disconnect, disconnect_timer_fires}
use live_server.Stream.HostGrace.Fires.{timer_finds_no_key}
use live_server.Stream.Admins.{Admins, Up, is_stream_admin, get_stream_admins}
use live_server.Stream.Admins.Toggle.{get_stream_admins-is_stream_admin}
use live_server.Stream.Permissions.{Permission}
use live_server.Stream.GoLive.{HostTable, World, Start, written}

-- User 1 is the host, user 2 an admin, and user 3 under LIVE_AUDIO_MUTE.
abbrev room : Room
room = record {
  host = some 1;
  is_admin = λ u. u == 2;
  admin_ids = 2 ∷ [];
  restricted = λ u. u == 3;
  mic_permission_required = true;
}

abbrev seat : Seat
seat = record {
  user_id = 4;
  username = 40;
  is_muted = true;
  muted_by_host = true;
  muted_until = some 1800000;
}

abbrev seats : List Seat
seats = seat ∷ []

self_mute_lifts_host_mute_example :
    find_seat
      (handled room seats ((toggle_self_mute 4 true, 1000) ∷ (toggle_self_mute 4 false, 2000) ∷ []))
      4
    ≡ some (record seat { is_muted = false; muted_by_host = false; muted_until = none })
self_mute_lifts_host_mute_example = self_mute_lifts_host_mute room seats seat 4 1000 2000 refl refl

abbrev no_keys : Keys concrete_redis
no_keys = record {
  disconnect_timer = empty_store;
  return_by_stream = empty_store;
  return_by_user = empty_store;
}

abbrev found : Found
found = record { active_stream = some 7; active_call = false }

timer_finds_no_key_example :
    let (k', due) = on_disconnect concrete_redis false true true 60000 no_keys 7 0 5 in
    (due ≡ some 60005) × ((disconnect_timer_fires concrete_redis true k' 7 1 found 60005).1 ≡ none)
timer_finds_no_key_example =
    timer_finds_no_key concrete_redis no_keys 60000 7 1 0 5 60005 found refl (omega arith)
      (omega arith)

abbrev admins : Admins
admins = record { of_stream = λ s. []; of_host = λ h. 2 ∷ []; rows = λ h. 2 ∷ 3 ∷ [] }

abbrev up : Up
up = record { redis_open = true; database = true }

get_stream_admins-is_stream_admin_example :
    contains (get_stream_admins up admins 7 (some 1)) 3 ≡ (is_stream_admin up admins 7 (some 1) 3).1
get_stream_admins-is_stream_admin_example = get_stream_admins-is_stream_admin up admins 7 3 (some 1)

abbrev nothing {ℓ} : {V : Type ℓ} → Permission V
nothing = record { cache = empty_store; rows = empty_store }

-- A store in which a host's live stream, if there is one, has the host's id.
abbrev live_under : Option Row → ℕ → Option Row
live_under none u = none
live_under (some r) u = if r.is_live && (r.user_id == u) && (r.id == u) then some r else none

under_cases :
    (o : Option Row) (u : ℕ) (r : Row)
    → live_under o u ≡ some r
    → (o ≡ some r) × (r.id ≡ u) × (r.user_id ≡ u) × (r.is_live ≡ true)
under_cases none u r e = cc
under_cases (some r') u r e = ground (arith, e)

host_table-found :
    (st : Store Row) (u : ℕ) (r : Row)
    → live_under (st u) u ≡ some r
    → (st r.id ≡ some r) × (st r.id ≡ some r) × (r.user_id ≡ u) × (r.is_live ≡ true)
host_table-found st u r e =
    let (here, id, user, is_live) = under_cases (st u) u r e in
    let there : st r.id ≡ some r = ap st id ∙ here in (there, there, user, is_live)

find-put_other : (st : Store Row) (r : Row) (j : ℕ) → j ≢ r.id → put st r.id r j ≡ st j
find-put_other st r j other = ground (arith, other)

abbrev host_table : HostTable
host_table = record {
  table = store_streams;
  find_live_of = λ st u. live_under (st u) u;
  create = λ st r. (put st r.id r, written);
  found-live = host_table-found;
  create_written = λ st r e. rw (==_refl r.id) (refl);
  find-create = find-put_other;
}

abbrev old_row : Row
old_row = record {
  id = 1;
  stream_id = 1;
  user_id = 1;
  playback_id = none;
  is_live = true;
  started_at = some 0;
  created_at = some 0;
  ended_at = none;
  effective_duration = 0;
  end_reason = none;
}

abbrev answers : Answers
answers = record { won_points = λ u from to. 0; new_followers = λ u from to. 0 }

abbrev start : Start
start = record {
  user_id = 1;
  stream_id = 8;
  is_camera_on = true;
  now = 5000;
  redis_open = true;
  is_production = false;
  ban = none;
  user = some none;
}

abbrev world : World host_table answers
world = record {
  state = λ k. if k == 1 then some old_row else none;
  keys = record {
    active_stream_of = empty_store;
    info_of = empty_store;
    camera = λ s. no_camera_keys;
    history_of = λ s. [];
    chats_of = λ s. [];
  };
  suspended = none;
}
