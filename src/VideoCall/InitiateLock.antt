-- ===== src/VideoCall/InitiateLock.antt =====
-- The locks of `initiateCall` in src/modules/videoCall/service.js (LIVE-28), on the keys
-- `vc:initiate:lock:<user>`, while Redis is open and answers.
pub mod Exclusion
use live_server.Common.{
  ℕ, Bool, true, false, Option, none, some, List, [], ◌∷◌, ◌==◌, if◌then◌else◌, is_id,
}
use live_server.Common.Redis.{Redis}
use live_server.VideoCall.Initiate.{InitiateError, self_call, already_in_call, receiver_busy}

-- INITIATE_LOCK_MS
abbrev pub initiate_lock_ms : ℕ
initiate_lock_ms = 5000

-- A request with its token.
pub record Tap : Type 0 where
  pub caller_id : ℕ
  pub creator_id : ℕ
  pub token : ℕ

-- What the locks say: go on to `initiateCallUnlocked`, or the error, with whether the caller is sent
-- USER_BUSY.
pub data LockAnswer : Type 0 where
  goes_on : LockAnswer
  refused : InitiateError → Bool → LockAnswer

module _ (r : Redis) where
  open r use {State, get, set_nx, del}

  -- The script of `releaseInitiateLocks`.
  unfoldable pub release : State → ℕ → ℕ → ℕ → State
  release st key token now = if is_id (get st key now) token then del st key else st

  -- `releaseInitiateLocks`
  unfoldable pub release_initiate_locks : State → List ℕ → ℕ → ℕ → State
  unfolding release
  release_initiate_locks st [] token now = st
  release_initiate_locks st (key ∷ keys) token now =
      release_initiate_locks (release st key token now) keys token now

  second_lock : Tap → State × Bool → State × LockAnswer × List ℕ
  second_lock tap (st, true) = (st, goes_on, tap.caller_id ∷ tap.creator_id ∷ [])
  second_lock tap (st, false) = (st, refused receiver_busy true, tap.caller_id ∷ [])

  first_lock : Tap → ℕ → State × Bool → State × LockAnswer × List ℕ
  unfolding second_lock
  first_lock tap now (st, true) =
      second_lock tap (set_nx st tap.creator_id tap.token now initiate_lock_ms)
  first_lock tap now (st, false) = (st, refused already_in_call false, [])

  -- The loop over the two keys: the answer, and the keys held.
  unfoldable pub take_locks : State → Tap → ℕ → State × LockAnswer × List ℕ
  unfolding first_lock
  take_locks st tap now =
      first_lock tap now (set_nx st tap.caller_id tap.token now initiate_lock_ms)

  -- `initiateCall`; `body` is what happens on Redis until the `finally` at `later`.
  unfoldable pub initiate_call : State → Tap → ℕ → (State → State) → ℕ → State × LockAnswer
  initiate_call st tap now body later =
      if tap.caller_id == tap.creator_id
      then (st, refused self_call false)
      else (let (st', answer, held) = take_locks st tap now in
          (release_initiate_locks (body st') held tap.token later, answer))
