-- ===== src/VideoCall/Billing.antt =====
-- Per-minute billing of an ACTIVE call in src/modules/videoCall/service.js: `billDueMinutes`,
-- `scheduleNextBilling` and the low-coin disconnect. What Redis, the wallet and the ledger answer for
-- a minute is an argument, and so is the clock when it is read again.
pub mod Minutes
pub mod Stops
use live_server.Common.{
  ℕ, zero, suc, ◌+◌, ◌-◌, ◌*◌, ◌/◌, max, Bool, true, false, ◌&&◌, ◌||◌, not, Option, none, some,
  List, [], ◌∷◌, ltb, leb, if◌then◌else◌,
}
use live_server.VideoCall.Session.{Session, active, status_eq}

abbrev pub minute_ms : ℕ
minute_ms = 60000

abbrev pub bill_heartbeat_stale_ms : ℕ
bill_heartbeat_stale_ms = 30000

abbrev pub bill_min_gap_ms : ℕ
bill_min_gap_ms = 5000

-- CALL_BILL_TO_LAST_HB
pub data HbMode : Type 0 where
  hb_off hb_log hb_enforce : HbMode

abbrev pub enforces : HbMode → Bool
enforces hb_off = false
enforces hb_log = false
enforces hb_enforce = true

-- How the ledger answers `call-minute`: the error codes that the loop tells apart.
pub data LedgerReply : Type 0 where
  billed insufficient_coins call_not_active minute_out_of_order other_error : LedgerReply

-- What the rest of the system says while one minute is handled. A Redis read that throws aborts the
-- whole pass, and is left out.
pub record Minute : Type 0 where
  -- `call:disconnect:<session>:<caller>`, if Redis is open and the value is a number
  pub disconnected_at : Option ℕ
  pub reply : LedgerReply
  -- after the charge: whether a low-coin disconnect is pending, and the caller's coins, or `none` if
  -- the wallet cannot be read
  pub low_coin_pending : Bool
  pub coins_after : Option ℕ
  pub now : ℕ

-- What the loop asks for, in order.
pub data BillEffect : Type 0 where
  charge : ℕ → BillEffect
  schedule_low_coin : ℕ → ℕ → BillEffect
  end_insufficient : BillEffect

pub record Pass : Type 0 where
  pub session : Session
  pub coin_rate : ℕ
  pub hb_mode : HbMode
  -- what `getCallHeartbeat` knows
  pub call_heartbeat : Option ℕ
  pub minutes : ℕ → Minute

-- Minutes of the call that have begun at `now`; a clock before the start has begun none.
unfoldable pub current_minute : ℕ → ℕ → ℕ
current_minute started now = if ltb now started then 0 else (now - started) / minute_ms + 1

unfoldable pub minute_start : Session → ℕ → ℕ
minute_start s m = s.started_at + (m - 1) * minute_ms

abbrev pub last_heartbeat : HbMode → Option ℕ → Option ℕ
last_heartbeat hb_off hb = none
last_heartbeat hb_log hb = hb
last_heartbeat hb_enforce hb = hb

-- BE-13: no heartbeat for 30 s before the minute starts.
abbrev quiet_before : Option ℕ → ℕ → Bool
quiet_before none start = false
quiet_before (some hb) start = ltb (hb + bill_heartbeat_stale_ms) start

abbrev caller_gone : Option ℕ → ℕ → Bool
caller_gone none start = false
caller_gone (some disc) start = leb disc (start + 5000)

-- The two guards that stop the loop before minute `m` is charged.
unfoldable pub skips : Pass → ℕ → Bool
unfolding minute_start
skips p m =
    (quiet_before (last_heartbeat p.hb_mode p.call_heartbeat) (minute_start p.session m)
      && enforces p.hb_mode)
    || caller_gone (p.minutes m).disconnected_at (minute_start p.session m)

-- The end of minute `m`, when the call must end if the next minute cannot be paid for.
abbrev pub minute_end : Session → ℕ → ℕ
minute_end s m = s.started_at + m * minute_ms

-- The block after a charge, then the rest of the loop: a wallet that cannot be read stops the loop.
check_coins : Pass → ℕ → Option ℕ → List BillEffect → List BillEffect
check_coins p m none rest = []
check_coins p m (some coins) rest =
    if ltb coins p.coin_rate && ltb (p.minutes m).now (minute_end p.session m)
    then schedule_low_coin m (minute_end p.session m) ∷ rest
    else rest

-- After the ledger's answer: stop, or charge and go on with `rest`.
after_reply : LedgerReply → Pass → ℕ → List BillEffect → List BillEffect
unfolding check_coins
after_reply billed p m rest =
    charge m
    ∷ (if (p.minutes m).low_coin_pending
        then rest
        else check_coins p m (p.minutes m).coins_after rest)
after_reply insufficient_coins p m rest = end_insufficient ∷ []
after_reply call_not_active p m rest = []
after_reply minute_out_of_order p m rest = []
after_reply other_error p m rest = []

-- The loop from minute `m`, with `left` minutes to go.
bill_from : Pass → ℕ → ℕ → List BillEffect
bill_from p m zero = []
bill_from p m (suc left) =
    if skips p m then [] else after_reply (p.minutes m).reply p m (bill_from p (suc m) left)

unfoldable pub bill_due_minutes : Pass → ℕ → List BillEffect
unfolding bill_from current_minute skips after_reply
bill_due_minutes p now =
    let c = p.session.mins_charged in
    bill_from p (suc c) (current_minute p.session.started_at now - c)

-- `scheduleNextBilling`: the due time of the `vc_bill` timer.
unfoldable pub schedule_next_billing : Option Session → ℕ → Option ℕ
schedule_next_billing none now = none
schedule_next_billing (some s) now =
    if status_eq s.status active
    then some (max (s.started_at + s.mins_charged * minute_ms) (now + bill_min_gap_ms))
    else none
