-- ===== src/VideoCall/EndCall.antt =====
-- `endCall` of src/modules/videoCall/service.js. `between k` is what other requests do to the table at
-- the k-th wait; `now` is the time of the end.
pub mod Outcomes
use live_server.Common.{
  ℕ, zero, suc, ◌+◌, ◌*◌, Bool, true, false, ◌&&◌, ◌||◌, not, Option, none, some, List, [], ◌∷◌,
  ◌++◌, ◌==◌, if◌then◌else◌, or_else, is_some,
}
use live_server.VideoCall.Session.{
  Status, ringing, active, missed, ended, is_running, status_eq, EndReason, is_system_end_reason,
  is_net_lost_reason, Session, EndPatch, SessionTable, Event, call_missed, call_ended, Effect,
  emit_to_user, record_call_net_lost, close_livekit_room, clear_call_heartbeat, del_disconnect_key,
  cancel_low_coin, cancel_billing, cancel_disconnect, set_return_timers, schedule_host_return,
}

-- The arguments of `endCall`; `user_id` is `none` for null.
pub record Request : Type 0 where
  pub session_id : ℕ
  pub user_id : Option ℕ
  pub reason : EndReason
  pub ended_at_override : Option ℕ
  pub now : ℕ
  pub redis_open : Bool

abbrev pub is_user : Option ℕ → ℕ → Bool
is_user none k = false
is_user (some u) k = u == k

unfoldable pub may_end : Request → Session → Bool
may_end q s =
    (not (is_some q.user_id) && is_system_end_reason q.reason)
    || is_user q.user_id s.caller_id
    || is_user q.user_id s.creator_id

abbrev pub end_status : Status → Status
end_status st = if status_eq st ringing then missed else ended

unfoldable pub end_patch : Request → Status → EndPatch
end_patch q st = record {
  status = end_status st;
  ended_at = or_else q.ended_at_override q.now;
  end_reason = q.reason;
}

-- How one turn of the loop ends: `return null`, the throw, the next turn, or with the session as it
-- was read and as it is read back.
pub data Turn : Type 0 where
  gone unauthorized again : Turn
  won : Session → Session → Turn

pub data EndResult : Type 0 where
  returns_null throws_unauthorized : EndResult
  ends : Session → Session → EndResult

-- The three messages to the participants.
abbrev end_event : Status → Event
end_event st = if status_eq st ringing then call_missed else call_ended

abbrev emits : Request → Session → List Effect
emits q s =
    if is_system_end_reason q.reason || not (is_some q.user_id)
    then emit_to_user s.caller_id (end_event s.status) s.id
      ∷ emit_to_user s.creator_id (end_event s.status) s.id
      ∷ []
    else emit_to_user (if is_user q.user_id s.caller_id then s.creator_id else s.caller_id)
        (end_event s.status) s.id
      ∷ []

-- What the winner does, in order, up to the background work on a paused live stream.
unfoldable pub end_effects : Request → Session → List Effect
end_effects q s =
    (if status_eq s.status active && is_net_lost_reason q.reason
      then record_call_net_lost s.id q.user_id ∷ []
      else [])
    ++ (emits q s
        ++ (close_livekit_room s.livekit_room
              ∷ clear_call_heartbeat s.id s.caller_id s.creator_id
              ∷ (if q.redis_open
                  then del_disconnect_key s.id s.caller_id
                    ∷ del_disconnect_key s.id s.creator_id
                    ∷ []
                  else [])
            ++ (cancel_low_coin s.id
                ∷ cancel_billing s.id
                ∷ cancel_disconnect s.id s.caller_id
                ∷ cancel_disconnect s.id s.creator_id
                ∷ [])))

-- The background part: `pause` is the stream that the call paused, the flags say whether a participant
-- has a live stream. The host then has two minutes to return.
unfoldable pub host_return_grace : Session → Option ℕ → Bool → Bool → Bool → ℕ → List Effect
host_return_grace s none creator_live caller_live redis_open now = []
host_return_grace s (some stream) creator_live caller_live redis_open now =
    let host = if not creator_live && caller_live then s.caller_id else s.creator_id in
    (if redis_open then set_return_timers stream host ∷ [] else [])
    ++ schedule_host_return host (now + 120000) stream s.id ∷ []

module _ (t : SessionTable) where
  open t use {State, find, update_many}

  -- After the conditional update: the count, and the row read back.
  read_back : Session → State × ℕ → (State → State) → ℕ → State × Turn
  read_back s (st, count) wait id =
      let st' = wait st in
      (st', if count == 1 then elim (find st' id) [ none ↦ again | some s' ↦ won s s' ] else again)

  turn_on : Request → Option Session → State → (State → State) → (State → State) → State × Turn
  turn_on q none st wait wait' = (st, gone)
  turn_on q (some s) st wait wait' =
      if not (is_running s.status)
      then (st, gone)
      else if not (may_end q s)
      then (st, unauthorized)
      else read_back s (update_many (wait st) q.session_id s.status (end_patch q s.status)) wait'
          q.session_id

  -- One turn of the loop: read, check, update if the status is still the one that was read, read back.
  unfoldable pub turn : Request → State → (State → State) → (State → State) → State × Turn
  unfolding read_back turn_on
  turn q st wait wait' = turn_on q (find st q.session_id) st wait wait'

  loop : ℕ → Request → State → (ℕ → State → State) → ℕ → State × EndResult
  loop zero q st between k = (st, returns_null)
  loop (suc left) q st between k =
      let (st', result) = turn q st (between (2 * k)) (between (2 * k + 1)) in
      let rest = loop left q st' between (k + 1) in
      elim result [
        | gone ↦ (st', returns_null)
        | unauthorized ↦ (st', throws_unauthorized)
        | again ↦ rest
        | won s s' ↦ (st', ends s s')
      ]

  abbrev pub effects_of : Request → EndResult → List Effect
  effects_of q returns_null = []
  effects_of q throws_unauthorized = []
  effects_of q (ends s s') = end_effects q s

  unfoldable pub end_call : Request → State → (ℕ → State → State) → State × EndResult × List Effect
  unfolding loop
  end_call q st between =
      let (st', result) = loop 2 q st between 0 in (st', result, effects_of q result)
