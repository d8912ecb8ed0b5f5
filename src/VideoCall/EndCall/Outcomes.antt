-- ===== src/VideoCall/EndCall/Outcomes.antt =====
-- On src/modules/videoCall/service.js. What `endCall` answers, writes and sends, alone and
-- against an accept.
use live_server.Common.{
  ℕ, ◌≡◌, Bool, true, false, not, Option, none, some, arith, ◌==◌, if◌then◌else◌,
}
use live_server.VideoCall.Session.{ringing, active, is_running, Session, patched, SessionTable}
use live_server.VideoCall.EndCall.{
  Request, may_end, end_patch, EndResult, returns_null, throws_unauthorized, ends, end_effects,
  turn, turn_on, read_back, loop, end_call,
}

-- The answer, from the row as it stands.
abbrev pub answer : Request → Option Session → EndResult
answer q none = returns_null
answer q (some s) =
    if not (is_running s.status)
    then returns_null
    else if not (may_end q s)
    then throws_unauthorized
    else ends s (patched (end_patch q s.status) s)

abbrev pub is_end : EndResult → Bool
is_end returns_null = false
is_end throws_unauthorized = false
is_end (ends s s') = true

abbrev pub ended_row : EndResult → Option Session → Option Session
ended_row returns_null o = o
ended_row throws_unauthorized o = o
ended_row (ends s s') o = some s'

module _ (t : SessionTable) where
  open t use {State, find, update_many, activate}

  abbrev pub nobody : ℕ → State → State
  nobody k st = st

  -- An accept that lands between the read and the update of an end makes the end's first update miss;
  -- the second turn then ends the call from ACTIVE, so the accepted call is recorded as ENDED, never as
  -- MISSED.
  pub end_call_after_accept :
      (q : Request) (st : State) (s : Session)
      → find st q.session_id ≡ some s
      → s.status ≡ ringing
      → may_end q s ≡ true
      → let accepted = record s { status = active } in
        let (st', result, effects) =
          end_call t q st (λ k st'. if k == 0 then activate st' q.session_id else st') in
        (result ≡ ends accepted (patched (end_patch q active) accepted))
        × (find st' q.session_id ≡ some (patched (end_patch q active) accepted))
        × (effects ≡ end_effects q accepted)
  unfolding end_call loop turn turn_on read_back may_end
  end_call_after_accept q st s e ring may =
      let id = q.session_id in
      let missed_update = (update_many (activate st id) id ringing (end_patch q ringing)).0 in
      ground (
        arith,
        e,
        t.find-activate st id id,
        t.update_many_count (activate st id) id ringing (end_patch q ringing),
        t.find-update_many (activate st id) id ringing (end_patch q ringing) id,
        t.update_many_count missed_update id active (end_patch q active),
        t.find-update_many missed_update id active (end_patch q active) id,
      )
