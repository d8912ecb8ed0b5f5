-- ===== src/VideoCall/Accept.antt =====
-- `acceptCall` of src/modules/videoCall/service.js, up to the background work on a live stream.
-- `wait` is what other requests do to the table between the read and the ledger's transaction; the ledger
-- is an argument, which changes the row and answers. Messages are numbers.
pub mod Rings
use live_server.Common.{
  ℕ, ◌+◌, ◌*◌, Bool, true, false, ◌&&◌, not, Option, none, some, List, [], ◌∷◌, ◌++◌, ◌==◌, ltb,
  if◌then◌else◌, inl, inr, ◌⊎◌,
}
use live_server.Common.Int.{ℤ, pos, ltb_ℤ}
use live_server.Services.Ledger.{LedgerError, LocalError, Messages, to_local_error}
use live_server.VideoCall.Session.{
  Session, SessionTable, Effect, emit_to_user, call_accepted, record_heartbeat, schedule_billing,
  schedule_low_coin,
}
use live_server.VideoCall.Reject.{may_answer}
use live_server.VideoCall.Billing.{schedule_next_billing, minute_ms}

pub data AcceptError : Type 0 where
  invalid_session coins_frozen : AcceptError
  ledger_error : LocalError → AcceptError

-- "Insufficient balance to accept call."
abbrev pub accept_messages : Messages
accept_messages = record {
  insufficient = 4;
  not_found = none;
  not_active = none;
  invalid_state = none;
}

-- What the rest of the system says: the caller's coins after minute 1 are `none` if the wallet cannot be
-- read.
pub record Answers : Type 0 where
  pub caller_frozen : Bool
  pub coin_rate : ℕ
  pub coins_after : Option ℤ
  pub low_coin_pending : Bool
  pub now : ℕ

-- The error or the row that is returned, and what was asked of the rest of the system.
pub record Accepted : Type 0 where
  pub result : AcceptError ⊎ Option Session
  pub effects : List Effect

abbrev fails : AcceptError → Accepted
fails e = record { result = inl e; effects = [] }

low_coin_check : Answers → Session → Option ℤ → List Effect
low_coin_check a s none = []
low_coin_check a s (some coins) =
    if ltb_ℤ coins (pos a.coin_rate)
      && not a.low_coin_pending
      && ltb a.now (s.started_at + minute_ms)
    then schedule_low_coin s.id s.caller_id a.coin_rate (s.started_at + minute_ms) 1 ∷ []
    else []

billing : Session → Option ℕ → List Effect
billing s none = []
billing s (some due) = schedule_billing s.id due ∷ []

-- A row that is gone has no start, and schedules nothing.
timers : Answers → Option Session → List Effect
unfolding low_coin_check billing
timers a none = []
timers a (some s) =
    billing s (schedule_next_billing (some s) a.now) ++ low_coin_check a s a.coins_after

accept_effects : Answers → Session → Option Session → List Effect
unfolding timers
accept_effects a s updated =
    emit_to_user s.caller_id call_accepted s.id
    ∷ record_heartbeat s.id s.caller_id
    ∷ record_heartbeat s.id s.creator_id
    ∷ timers a updated

module _ (t : SessionTable) where
  open t use {State, find}

  -- `acceptCallRemoteLedger` and what follows, for the ledger's error, if any.
  after_ledger : Answers → Session → State × Option LedgerError → State × Accepted
  unfolding accept_effects
  after_ledger a s (st, some err) = (st, fails (ledger_error (to_local_error err accept_messages)))
  after_ledger a s (st, none) =
      (st, record { result = inr (find st s.id); effects = accept_effects a s (find st s.id) })

  accept_on :
      Answers
      → Option Session
      → ℕ
      → State
      → (State → State)
      → (State → State × Option LedgerError)
      → State × Accepted
  unfolding after_ledger
  accept_on a none receiver st wait ledger = (st, fails invalid_session)
  accept_on a (some s) receiver st wait ledger =
      if not (may_answer s receiver)
      then (st, fails invalid_session)
      else if a.caller_frozen
      then (st, fails coins_frozen)
      else after_ledger a s (ledger (wait st))

  unfoldable pub accept_call :
      Answers
      → ℕ
      → ℕ
      → State
      → (State → State)
      → (State → State × Option LedgerError)
      → State × Accepted
  unfolding accept_on
  accept_call a session receiver st wait ledger =
      accept_on a (find st session) receiver st wait ledger
