-- ===== src/Stream/Seats.antt =====
-- The audio seats of one live stream: the `sheet` operations of src/routes/service/serviceLive.js, and
-- the socket handlers of src/routes/service/socket-live-service.js that use them, from the answers of
-- the database and Redis on. A seat is a field of the hash `stream:sheet:<stream>`, under its user.
pub mod Mutes
pub mod Managed
use live_server.Common.{
  ℕ, ◌+◌, Bool, true, false, ◌&&◌, ◌||◌, not, Option, none, some, is_id, List, [], ◌∷◌, ◌++◌, map,
  ◌==◌, leb, if◌then◌else◌,
}

pub record Seat : Type 0 where
  pub user_id : ℕ
  pub username : ℕ
  pub is_muted : Bool
  pub muted_by_host : Bool
  pub muted_until : Option ℕ

-- 30 * 60 * 1000
abbrev pub mute_ms : ℕ
mute_ms = 1800000

-- `hGet`, `hSet` and `hDel`
abbrev pub find_seat : List Seat → ℕ → Option Seat
find_seat [] u = none
find_seat (s ∷ ss) u = if s.user_id == u then some s else find_seat ss u

abbrev pub set_seat : List Seat → Seat → List Seat
set_seat [] n = n ∷ []
set_seat (s ∷ ss) n = if s.user_id == n.user_id then n ∷ ss else s ∷ set_seat ss n

abbrev pub del_seat : List Seat → ℕ → List Seat
del_seat [] u = []
del_seat (s ∷ ss) u = if s.user_id == u then del_seat ss u else s ∷ del_seat ss u

-- `addUserToSheetService`; the flag says whether the user is under LIVE_AUDIO_MUTE.
abbrev pub new_seat : ℕ → ℕ → Bool → Seat
new_seat u name restricted = record {
  user_id = u;
  username = name;
  is_muted = restricted;
  muted_by_host = restricted;
  muted_until = none;
}

abbrev pub add_user_to_sheet : List Seat → ℕ → ℕ → Bool → List Seat
add_user_to_sheet ss u name restricted = set_seat ss (new_seat u name restricted)

abbrev pub remove_user_from_sheet : List Seat → ℕ → List Seat
remove_user_from_sheet ss u = del_seat ss u

-- What a change of the mute does to a seat; every caller says who mutes.
abbrev pub with_mute : Seat → Bool → Bool → ℕ → Seat
with_mute s mute_state muted_by_host now = record s {
  is_muted = mute_state;
  muted_by_host = muted_by_host;
  muted_until = if muted_by_host then some (now + mute_ms) else none;
}

abbrev toggle_found : List Seat → Option Seat → Bool → Bool → ℕ → List Seat × Bool
toggle_found ss none mute_state muted_by_host now = (ss, false)
toggle_found ss (some s) mute_state muted_by_host now =
    (set_seat ss (with_mute s mute_state muted_by_host now), true)

-- `toggleUserSheetMuteService`, and whether it found the user.
unfoldable pub toggle_user_sheet_mute : List Seat → ℕ → Bool → Bool → ℕ → List Seat × Bool
toggle_user_sheet_mute ss u mute_state muted_by_host now =
    toggle_found ss (find_seat ss u) mute_state muted_by_host now

-- A host's mute is over after its 30 minutes.
abbrev pub is_over : Option ℕ → ℕ → Bool
is_over none now = false
is_over (some until) now = leb until now

abbrev pub refreshed : ℕ → Seat → Seat
refreshed now s =
    if s.muted_by_host && is_over s.muted_until now
    then record s { muted_by_host = false; is_muted = false; muted_until = none }
    else s

-- `getSheetUsersService`: the hash as it is left, which is also the answer.
unfoldable pub get_sheet_users : List Seat → ℕ → List Seat
get_sheet_users ss now = map (refreshed now) ss

-- What the handlers read elsewhere: the host of the running stream, its admins, who is under
-- LIVE_AUDIO_MUTE, and whether a seat has to be asked for.
pub record Room : Type 0 where
  pub host : Option ℕ
  pub is_admin : ℕ → Bool
  pub admin_ids : List ℕ
  pub restricted : ℕ → Bool
  pub mic_permission_required : Bool

-- `checkIsHostOrAdmin`
abbrev is_host_or_admin_of : Room → Option ℕ → ℕ → Bool
is_host_or_admin_of r none u = false
is_host_or_admin_of r (some host) u = if host == u then true else r.is_admin u

abbrev pub check_is_host_or_admin : Room → ℕ → Bool
check_is_host_or_admin r u = is_host_or_admin_of r r.host u

abbrev pub is_running : Option ℕ → Bool
is_running none = false
is_running (some host) = true

-- A socket event, with the user of the socket first.
pub data Event : Type 0 where
  accept_sheet_invite request_to_join_sheet : ℕ → ℕ → Event
  -- the user, the target, and the target's name
  accept_sheet_request : ℕ → ℕ → ℕ → Event
  toggle_sheet_mute : ℕ → ℕ → Bool → Event
  toggle_self_mute : ℕ → Bool → Event
  remove_from_sheet : ℕ → ℕ → Event
  leave_sheet : ℕ → Event

pub data Effect : Type 0 where
  error joined_sheet left_sheet request_accepted request_received : ℕ → Effect
  mute_changed : ℕ → Bool → Effect
  schedule_unmute : ℕ → ℕ → Effect
  cancel_unmute : ℕ → Effect

abbrev seated : Room → List Seat → ℕ → ℕ → List Seat
seated r ss u name = add_user_to_sheet ss u name (r.restricted u)

-- The admins that hear of a viewer's request.
abbrev to_admins : List ℕ → ℕ → List Effect
to_admins [] u = []
to_admins (a ∷ ids) u =
    let rest = to_admins ids u in if a == u then rest else request_received a ∷ rest

-- Joining at once, or messages to the host and, about a viewer, to the admins.
abbrev requested : Room → List Seat → ℕ → ℕ → Option ℕ → List Seat × List Effect
requested r ss u name none = (ss, [])
requested r ss u name (some host) =
    if not r.mic_permission_required
    then (seated r ss u name, request_accepted u ∷ joined_sheet u ∷ [])
    else (ss, request_received host ∷ (if r.is_admin u then [] else to_admins r.admin_ids u))

abbrev request_decided : Room → List Seat → ℕ → ℕ → ℕ → List Seat × List Effect
request_decided r ss u target name =
    if not (is_running r.host)
    then (ss, [])
    else if r.is_admin target && not (is_id r.host u)
    then (ss, error u ∷ [])
    else if r.restricted target
    then (ss, error u ∷ [])
    else (seated r ss target name, request_accepted target ∷ joined_sheet target ∷ [])

abbrev muted_by_manager : List Seat × Bool → ℕ → Bool → ℕ → List Seat × List Effect
muted_by_manager (ss, found) target mute_state now =
    if found
    then (
      ss,
      mute_changed target mute_state
          ∷ (if mute_state then schedule_unmute target (now + mute_ms) else cancel_unmute target)
          ∷ [],
    )
    else (ss, [])

abbrev self_muted : List Seat × Bool → ℕ → Bool → List Seat × List Effect
self_muted (ss, found) u mute_state = (ss, if found then mute_changed u mute_state ∷ [] else [])

-- Whether the seat as it is read keeps its user from unmuting.
abbrev pub held_by_host : Option Seat → ℕ → Bool
held_by_host none now = false
held_by_host (some s) now = s.muted_by_host && not (is_over s.muted_until now)

unfoldable pub handle : Room → List Seat → Event → ℕ → List Seat × List Effect
unfolding toggle_user_sheet_mute
handle r ss (accept_sheet_invite u name) now =
    if r.restricted u then (ss, error u ∷ []) else (seated r ss u name, joined_sheet u ∷ [])
handle r ss (request_to_join_sheet u name) now =
    if r.restricted u then (ss, error u ∷ []) else requested r ss u name r.host
handle r ss (accept_sheet_request u target name) now =
    if check_is_host_or_admin r u then request_decided r ss u target name else (ss, [])
handle r ss (toggle_sheet_mute u target mute_state) now =
    if not (check_is_host_or_admin r u)
    then (ss, [])
    else if not mute_state && r.restricted target
    then (ss, error u ∷ [])
    else muted_by_manager (toggle_user_sheet_mute ss target mute_state mute_state now) target
        mute_state now
handle r ss (toggle_self_mute u mute_state) now =
    if r.restricted u && not mute_state
    then (ss, error u ∷ [])
    else if not mute_state && held_by_host (find_seat ss u) now
    then (ss, [])
    else self_muted (toggle_user_sheet_mute ss u mute_state false now) u mute_state
handle r ss (remove_from_sheet u target) now =
    if check_is_host_or_admin r u
    then (remove_user_from_sheet ss target, left_sheet target ∷ [])
    else (ss, [])
handle r ss (leave_sheet u) now = (remove_user_from_sheet ss u, left_sheet u ∷ [])

abbrev unmuted_at : List Seat → ℕ → Option Seat → ℕ → List Seat × List Effect
unmuted_at ss u none now = (ss, [])
unmuted_at ss u (some s) now =
    if s.muted_by_host
    then ((toggle_user_sheet_mute ss u false false now).0, mute_changed u false ∷ [])
    else (ss, [])

-- The handler of the `sheet_unmute` timer.
unfoldable pub sheet_unmute : List Seat → ℕ → ℕ → List Seat × List Effect
unfolding toggle_user_sheet_mute
sheet_unmute ss u now = unmuted_at ss u (find_seat ss u) now
