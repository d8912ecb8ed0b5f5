-- ===== src/VideoCall/InitiateLock/Exclusion.antt =====
-- On src/modules/videoCall/service.js. Requests for calls that share a user.
use live_server.Common.{ℕ, ◌≤◌, ◌<◌, ◌≡◌, ◌≢◌, some, List, [], ◌∷◌}
use live_server.Common.Redis.{Redis}
use live_server.VideoCall.InitiateLock.{initiate_lock_ms, release}

-- What other requests send to Redis, each with its time.
pub data Command : Type 0 where
  sets : ℕ → ℕ → ℕ → Command
  releases : ℕ → ℕ → ℕ → Command

module _ (r : Redis) where
  open r use {State, get, set_nx, set_nx_reply, get-set_nx, del, get-del}

  -- A key holds a token from now until a time.
  abbrev pub Holds : State → ℕ → ℕ → ℕ → ℕ → Type 0
  Holds st key token now until = (t : ℕ) → now ≤ t → t < until → get st key t ≡ some token

  abbrev pub run : List Command → State → State
  run [] st = st
  run (sets k v at ∷ cs) st = run cs (set_nx st k v at initiate_lock_ms).0
  run (releases k v at ∷ cs) st = run cs (release r st k v at)

  -- The times do not fall, from `now` to `end`, and the tokens are others.
  abbrev pub Others : ℕ → ℕ → ℕ → List Command → Type 0
  Others token now end [] = now ≤ end
  Others token now end (sets k v at ∷ cs) =
      (token ≢ v) × (now ≤ at) × (at ≤ end) × Others token at end cs
  Others token now end (releases k v at ∷ cs) =
      (token ≢ v) × (now ≤ at) × (at ≤ end) × Others token at end cs
