-- ===== src/VideoCall/Reject.antt =====
-- `rejectCall` of src/modules/videoCall/service.js. `wait` is what other requests do to the table
-- between its read and its update.
pub mod Once
use live_server.Common.{ℕ, Bool, ◌&&◌, not, Option, none, some, List, [], ◌∷◌, ◌==◌, if◌then◌else◌}
use live_server.VideoCall.Session.{
  Status, ringing, rejected, status_eq, rejected_by_receiver, Session, EndPatch, SessionTable,
  Effect, emit_to_user, call_rejected,
}

pub data RejectResult : Type 0 where
  rejects throws_invalid : RejectResult

unfoldable pub reject_patch : ℕ → EndPatch
reject_patch now = record { status = rejected; ended_at = now; end_reason = rejected_by_receiver }

-- The check that accept and reject share.
abbrev pub may_answer : Session → ℕ → Bool
may_answer s receiver = status_eq s.status ringing && s.creator_id == receiver

module _ (t : SessionTable) where
  open t use {State, find, update_many}

  by_count : Session → State × ℕ → State × RejectResult × List Effect
  by_count s (st, count) =
      if count == 0
      then (st, throws_invalid, [])
      else (st, rejects, emit_to_user s.caller_id call_rejected s.id ∷ [])

  reject_on :
      Option Session → State → ℕ → ℕ → ℕ → (State → State) → State × RejectResult × List Effect
  reject_on none st id receiver now wait = (st, throws_invalid, [])
  reject_on (some s) st id receiver now wait =
      if not (may_answer s receiver)
      then (st, throws_invalid, [])
      else by_count s (update_many (wait st) id ringing (reject_patch now))

  unfoldable pub reject_call :
      State → ℕ → ℕ → ℕ → (State → State) → State × RejectResult × List Effect
  unfolding by_count reject_on
  reject_call st id receiver now wait = reject_on (find st id) st id receiver now wait
