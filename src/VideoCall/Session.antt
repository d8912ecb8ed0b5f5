-- ===== src/VideoCall/Session.antt =====
-- The call sessions of src/modules/videoCall/service.js: rows of `video_call_sessions`, the table that
-- holds them, and what an operation asks the rest of the system to do.
use live_server.Common.{
  ℕ, ◌≡◌, refl, Bool, true, false, ◌&&◌, Option, none, some, ◌==◌, if◌then◌else◌,
}
use live_server.Common.Store.{Store}

pub data Status : Type 0 where
  ringing active missed ended rejected : Status

abbrev pub status_code : Status → ℕ
status_code ringing = 0
status_code active = 1
status_code missed = 2
status_code ended = 3
status_code rejected = 4

abbrev pub status_eq : Status → Status → Bool
status_eq a b = status_code a == status_code b

-- `["RINGING", "ACTIVE"].includes(status)`
abbrev pub is_running : Status → Bool
is_running ringing = true
is_running active = true
is_running missed = false
is_running ended = false
is_running rejected = false

pub data EndReason : Type 0 where
  user_ended heartbeat_lost insufficient_balance ringing_timeout test_reset system_reset : EndReason
  room_finished_webhook violation_nudity user_disconnected_timeout : EndReason
  cleanup_stale_before_initiate rejected_by_receiver : EndReason

-- SYSTEM_END_REASONS
abbrev pub is_system_end_reason : EndReason → Bool
is_system_end_reason heartbeat_lost = true
is_system_end_reason insufficient_balance = true
is_system_end_reason ringing_timeout = true
is_system_end_reason test_reset = true
is_system_end_reason system_reset = true
is_system_end_reason room_finished_webhook = true
is_system_end_reason violation_nudity = true
is_system_end_reason _ = false

-- CALL_NET_LOST_REASONS
abbrev pub is_net_lost_reason : EndReason → Bool
is_net_lost_reason heartbeat_lost = true
is_net_lost_reason user_disconnected_timeout = true
is_net_lost_reason _ = false

pub record Session : Type 0 where
  pub id : ℕ
  pub caller_id : ℕ
  pub creator_id : ℕ
  pub livekit_room : ℕ
  pub price_per_min : ℕ
  pub status : Status
  pub mins_charged : ℕ
  pub started_at : ℕ
  pub ended_at : Option ℕ
  pub end_reason : Option EndReason

-- The `data` of an `updateMany` that ends a session.
pub record EndPatch : Type 0 where
  pub status : Status
  pub ended_at : ℕ
  pub end_reason : EndReason

abbrev pub patched : EndPatch → Session → Session
patched p s = record s {
  status = p.status;
  ended_at = some p.ended_at;
  end_reason = some p.end_reason;
}

abbrev pub has_status : Status → Option Session → Bool
has_status st none = false
has_status st (some s) = status_eq s.status st

abbrev pub option_patched : EndPatch → Option Session → Option Session
option_patched p none = none
option_patched p (some s) = some (patched p s)

abbrev pub activated : Option Session → Option Session
activated none = none
activated (some s) = some (record s { status = active })

-- The table, which Prisma and the database implement: one statement is atomic, and the laws are what
-- `findUnique` and `updateMany` document. `activate` is the effect of the ledger's `call-accept` on the
-- row, under the row lock: RINGING becomes ACTIVE, and no other status changes.
pub record SessionTable : Type 1 where
  pub State : Type 0
  pub find : State → ℕ → Option Session
  pub update_many : State → ℕ → Status → EndPatch → State × ℕ
  pub activate : State → ℕ → State
  pub update_many_count :
      (t : State) (id : ℕ) (st : Status) (p : EndPatch)
      → (update_many t id st p).1 ≡ (if has_status st (find t id) then 1 else 0)
  pub find-update_many :
      (t : State) (id : ℕ) (st : Status) (p : EndPatch) (j : ℕ)
      → find (update_many t id st p).0 j ≡ (
          if (j == id) && has_status st (find t id) then option_patched p (find t id) else find t j)
  pub find-activate :
      (t : State) (id j : ℕ)
      → find (activate t id) j
        ≡ (if (j == id) && has_status ringing (find t id) then activated (find t id) else find t j)

-- A store of rows has these laws.
abbrev store_update_many : Store Session → ℕ → Status → EndPatch → Store Session × ℕ
store_update_many t id st p =
    let hit = has_status st (t id) in
    ((λ j. if (j == id) && hit then option_patched p (t id) else t j), if hit then 1 else 0)

abbrev pub store_table : SessionTable
store_table = record {
  State = Store Session;
  find = λ t id. t id;
  update_many = store_update_many;
  activate = λ t id j. if (j == id) && has_status ringing (t id) then activated (t id) else t j;
  update_many_count = λ t id st p. refl;
  find-update_many = λ t id st p j. refl;
  find-activate = λ t id j. refl;
}

-- The socket events, with the user that each goes to.
pub data Event : Type 0 where
  call_missed call_ended call_rejected call_incoming call_accepted user_busy : Event

-- What an operation asks of sockets, LiveKit, Redis and the durable timers, none of which can make it
-- fail.
pub data Effect : Type 0 where
  emit_to_user : ℕ → Event → ℕ → Effect
  record_call_net_lost : ℕ → Option ℕ → Effect
  close_livekit_room : ℕ → Effect
  clear_call_heartbeat : ℕ → ℕ → ℕ → Effect
  del_disconnect_key : ℕ → ℕ → Effect
  cancel_low_coin cancel_billing : ℕ → Effect
  cancel_disconnect : ℕ → ℕ → Effect
  set_return_timers : ℕ → ℕ → Effect
  schedule_host_return : ℕ → ℕ → ℕ → ℕ → Effect
  record_heartbeat : ℕ → ℕ → Effect
  schedule_billing : ℕ → ℕ → Effect
  schedule_low_coin : ℕ → ℕ → ℕ → ℕ → ℕ → Effect
