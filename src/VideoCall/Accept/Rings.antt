-- ===== src/VideoCall/Accept/Rings.antt =====
-- On src/modules/videoCall/service.js. When accepting a call succeeds.
use live_server.Common.{
  ℕ, ◌≡◌, ◌⊎◌, inl, inr, not, ◌&&◌, Option, some, [], arith, Option-cases, Bool-cases,
}
use live_server.Services.Ledger.{LedgerError, to_local_error}
use live_server.VideoCall.Session.{Session, SessionTable}
use live_server.VideoCall.Reject.{may_answer}
use live_server.VideoCall.Accept.{AcceptError, Answers, accept_call, accept_messages, ledger_error}

module _ (t : SessionTable) where
  open t use {State, find}

  -- A failure asks for nothing: no message, no heartbeat and no timer; and unless the ledger was asked,
  -- the table is left as it was.
  pub failure_is_quiet :
      (a : Answers) (session receiver : ℕ) (st : State) (wait : State → State)
      (ledger : State → State × Option LedgerError) (e : AcceptError)
      → (accept_call t a session receiver st wait ledger).1.result ≡ inl e
      → ((accept_call t a session receiver st wait ledger).1.effects ≡ [])
        × (((accept_call t a session receiver st wait ledger).0 ≡ st)
            ⊎ ((err : LedgerError) × ((ledger (wait st)).1 ≡ some err)
                × (e ≡ ledger_error (to_local_error err accept_messages))))
  unfolding accept_call
  failure_is_quiet a session receiver st wait ledger e h = elim (Option-cases (find st session)) [
    | inl n ↦ (ground arith, inl (ground arith))
    | inr (s, is) ↦ elim (Option-cases (ledger (wait st)).1) [
      | inl ok ↦ (ground arith, inl (ground arith))
      | inr (err, failed) ↦ elim (Bool-cases (may_answer s receiver && not a.caller_frozen)) [
        | inl asked ↦ (ground arith, inr (err, failed, ground arith))
        | inr refused ↦ (ground arith, inl (ground arith))
      ]
    ]
  ]
