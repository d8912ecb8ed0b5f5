-- ===== src/Stream/Seats/Managed.antt =====
-- On src/routes/service/socket-live-service.js. Whose seats a user may change.
use live_server.Common.{ℕ, ◌≡◌, ◌≢◌, refl, Bool, false, List, arith, Option-cases, inl, inr}
use live_server.Stream.Seats.{
  Seat, find_seat, with_mute, toggle_user_sheet_mute, Room, Event, handle, accept_sheet_invite,
  request_to_join_sheet, accept_sheet_request, toggle_sheet_mute, toggle_self_mute,
  remove_from_sheet, leave_sheet, check_is_host_or_admin, new_seat,
}
use live_server.Stream.Seats.Mutes.{find-set_seat, find-del_seat, find_seat-user_id}

abbrev pub actor : Event → ℕ
actor (accept_sheet_invite u name) = u
actor (request_to_join_sheet u name) = u
actor (accept_sheet_request u target name) = u
actor (toggle_sheet_mute u target on) = u
actor (toggle_self_mute u on) = u
actor (remove_from_sheet u target) = u
actor (leave_sheet u) = u

find-toggled :
    (ss : List Seat) (u : ℕ) (on by_host : Bool) (now j : ℕ)
    → u ≢ j
    → find_seat (toggle_user_sheet_mute ss u on by_host now).0 j ≡ find_seat ss j
unfolding toggle_user_sheet_mute
find-toggled ss u on by_host now j d = elim (Option-cases (find_seat ss u)) [
  | inl e ↦ rw e (refl)
  | inr (s, e) ↦
      rw e (
        ground (arith, find-set_seat ss (with_mute s on by_host now) j, find_seat-user_id ss u s e))
]

-- An event of a user who is neither the host of the running stream nor one of its admins leaves the
-- seats of all others as they are.
pub others_seats_kept :
    (r : Room) (ss : List Seat) (e : Event) (now j : ℕ)
    → check_is_host_or_admin r (actor e) ≡ false
    → actor e ≢ j
    → find_seat (handle r ss e now).0 j ≡ find_seat ss j
unfolding handle
others_seats_kept r ss (accept_sheet_invite u name) now j h d =
    ground (arith, find-set_seat ss (new_seat u name (r.restricted u)) j)
others_seats_kept r ss (request_to_join_sheet u name) now j h d =
    ground (arith, find-set_seat ss (new_seat u name (r.restricted u)) j)
others_seats_kept r ss (accept_sheet_request u target name) now j h d = ground arith
others_seats_kept r ss (toggle_sheet_mute u target on) now j h d = ground arith
others_seats_kept r ss (toggle_self_mute u on) now j h d =
    ground (arith, find-toggled ss u on false now j d)
others_seats_kept r ss (remove_from_sheet u target) now j h d = ground arith
others_seats_kept r ss (leave_sheet u) now j h d = ground (arith, find-del_seat ss u j)
