-- ===== src/VideoCall/Reject/Once.antt =====
-- On src/modules/videoCall/service.js. What rejecting a call does.
use live_server.Common.{ℕ, ◌≡◌, ◌↔◌, inl, inr, true, some, arith, ==_refl, Option-cases}
use live_server.VideoCall.Session.{Session, SessionTable, ringing, has_status}
use live_server.VideoCall.Reject.{rejects, reject_patch, reject_call}

module _ (t : SessionTable) where
  open t use {State, find, update_many, update_many_count, find-update_many}

  -- Rejecting succeeds exactly if the session was RINGING when it was read, the user is its receiver, and
  -- it was still RINGING when the row was updated.
  pub reject_iff :
      (st : State) (id receiver now : ℕ) (wait : State → State)
      → ((reject_call t st id receiver now wait).1 ≡ rejects) ↔ (
          (s : Session) × (find st id ≡ some s)
          × (s.status ≡ ringing)
          × (s.creator_id ≡ receiver)
          × (has_status ringing (find (wait st) id) ≡ true))
  unfolding reject_call
  reject_iff st id receiver now wait = (
    λ h. elim (Option-cases (find st id)) [
      | inl e ↦ absurd (ground arith)
      | inr (s, e) ↦ (
        s,
        e,
        ground arith,
        ground arith,
        ground (arith, update_many_count (wait st) id ringing (reject_patch now)),
      )
    ],
    λ (s, e, ring, is, still).
        ground (arith, ==_refl receiver, update_many_count (wait st) id ringing (reject_patch now)),
  )
