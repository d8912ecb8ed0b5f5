-- ===== src/VideoCall/Deadlines.antt =====
-- The handlers of the timers `vc_lowcoin` and `host_return` of src/modules/videoCall/service.js. What
-- Redis, the table and the wallet answer is an argument.
pub mod Handlers
use live_server.Common.{
  ℕ, Bool, true, false, ◌&&◌, ◌||◌, not, Option, none, some, List, [], ◌∷◌, if◌then◌else◌,
}
use live_server.Common.Int.{ℤ, pos, ltb_ℤ}
use live_server.VideoCall.Session.{Session, active, status_eq, insufficient_balance}
use live_server.VideoCall.EndCall.{Request}

-- The payload of a `vc_lowcoin` timer.
pub record LowCoin : Type 0 where
  pub caller_id : ℕ
  pub coin_rate : ℕ
  pub disconnect_at_ms : ℕ
  pub minute : ℕ

low_coin_end : ℕ → LowCoin → ℕ → Bool → Request
low_coin_end session p now redis_open = record {
  session_id = session;
  user_id = some p.caller_id;
  reason = insufficient_balance;
  ended_at_override = some p.disconnect_at_ms;
  now = now;
  redis_open = redis_open;
}

if_low : ℕ → LowCoin → Option Session → ℤ → ℕ → Bool → Option Request
unfolding low_coin_end
if_low session p none coins now redis_open = none
if_low session p (some s) coins now redis_open =
    if status_eq s.status active && ltb_ℤ coins (pos p.coin_rate)
    then some (low_coin_end session p now redis_open)
    else none

-- The handler of `vc_lowcoin`: the call of `endCall`, if it comes to that. A missing payload is `none`.
unfoldable pub low_coin_timer : ℕ → Option LowCoin → Option Session → ℤ → ℕ → Bool → Option Request
unfolding if_low
low_coin_timer session none fresh coins now redis_open = none
low_coin_timer session (some p) fresh coins now redis_open =
    if_low session p fresh coins now redis_open

-- What the handler of `host_return` asks for, in order.
pub data ReturnEffect : Type 0 where
  del_return_timers : ℕ → ℕ → ReturnEffect
  del_stream_pause : ℕ → ReturnEffect
  broadcast_stream_ended : ℕ → ReturnEffect
  end_live_stream : ℕ → ℕ → ReturnEffect

-- The payload of a `host_return` timer.
pub record Return : Type 0 where
  pub stream_id : ℕ
  pub session_id : Option ℕ

clear_keys : ℕ → Return → List ReturnEffect → List ReturnEffect
clear_keys host p rest =
    del_return_timers p.stream_id host
    ∷ (elim p.session_id [ none ↦ rest | some s ↦ del_stream_pause s ∷ rest ])

end_stream : ℕ → Return → Option ℕ → List ReturnEffect
end_stream host p none = []
end_stream host p (some stream) =
    broadcast_stream_ended p.stream_id ∷ end_live_stream stream host ∷ []

return_due : ℕ → Return → Bool → Bool → Bool → Option ℕ → List ReturnEffect
unfolding clear_keys end_stream
return_due host p redis_open pending1 pending2 active_stream =
    if redis_open
    then (if pending1 || pending2 then clear_keys host p (end_stream host p active_stream) else [])
    else end_stream host p active_stream

-- The handler of `host_return`; `pending1` and `pending2` say whether the two keys hold "pending", and
-- `active_stream` is the row of the host's live stream.
unfoldable pub host_return_timer :
    ℕ → Option Return → Bool → Bool → Bool → Option ℕ → List ReturnEffect
unfolding return_due
host_return_timer host none redis_open pending1 pending2 active_stream = []
host_return_timer host (some p) redis_open pending1 pending2 active_stream =
    return_due host p redis_open pending1 pending2 active_stream
