-- ===== src/Cluster/Leader.antt =====
-- The leader lock of cluster.service.js (L5). Nodes and loop names are ids. The two Lua scripts are
-- atomic, and so is `SET NX`; what other nodes do between them is an argument.
pub mod Lease
pub mod Verdict
use live_server.Common.{
  ℕ, suc, Bool, true, false, ◌&&◌, not, Option, none, some, List, [], ◌∷◌, ◌==◌, if◌then◌else◌,
  is_id,
}
use live_server.Common.Redis.{Redis}

abbrev pub leader_ttl_ms : ℕ
leader_ttl_ms = 15000

-- `redisClient.isOpen` is false, a command throws, or Redis answers.
pub data Link : Type 0 where
  closed broken answers : Link

-- The module's variables.
pub record Node : Type 0 where
  pub node_id : ℕ
  pub shutting_down : Bool
  pub run_locally_when_redis_down : Bool
  pub held_locks : List ℕ

abbrev pub drop_lock : ℕ → List ℕ → List ℕ
drop_lock name [] = []
drop_lock name (x ∷ xs) = if x == name then drop_lock name xs else x ∷ drop_lock name xs

abbrev pub note_lock : ℕ → Bool → List ℕ → List ℕ
note_lock name leader xs = if leader then name ∷ drop_lock name xs else drop_lock name xs

module _ (r : Redis) where
  open r use {State, get, set_nx, pexpire, del}

  -- `SET key NODE_ID NX PX LEADER_TTL_MS`
  unfoldable pub acquire : State → ℕ → ℕ → ℕ → State × Bool
  acquire s name node now = set_nx s name node now leader_ttl_ms

  -- RENEW_LUA
  unfoldable pub renew : State → ℕ → ℕ → ℕ → State × Bool
  renew s name node now =
      if is_id (get s name now) node then (pexpire s name now leader_ttl_ms, true) else (s, false)

  -- RELEASE_LUA
  unfoldable pub release : State → ℕ → ℕ → ℕ → State × Bool
  release s name node now = if is_id (get s name now) node then (del s name, true) else (s, false)

  -- `isLeader`: `between` is what happens on Redis between the two commands, and `later` the time
  -- of the second.
  claim_or_renew : State × Bool → ℕ → ℕ → (State → State) → ℕ → State × Bool
  claim_or_renew (s, true) name node between later = (s, true)
  claim_or_renew (s, false) name node between later = renew (between s) name node later

  is_leader_by : Link → Node → State → ℕ → ℕ → (State → State) → ℕ → State × Node × Bool
  is_leader_by closed n s name now between later = (s, n, n.run_locally_when_redis_down)
  is_leader_by broken n s name now between later = (s, n, n.run_locally_when_redis_down)
  is_leader_by answers n s name now between later =
      let (s', leader) =
        claim_or_renew (acquire s name n.node_id now) name n.node_id between later in
      (s', record n { held_locks = note_lock name leader n.held_locks }, leader)

  unfoldable pub is_leader : Link → Node → State → ℕ → ℕ → (State → State) → ℕ → State × Node × Bool
  unfolding is_leader_by claim_or_renew
  is_leader link n s name now between later =
      if n.shutting_down then (s, n, false) else is_leader_by link n s name now between later

  release_all : State → List ℕ → ℕ → ℕ → State
  unfolding release
  release_all s [] node now = s
  release_all s (name ∷ names) node now = release_all (release s name node now).0 names node now

  -- `releaseLeaderLocks`; a release that throws leaves its key to expire.
  unfoldable pub release_leader_locks : Link → Node → State → ℕ → State × Node
  unfolding release_all
  release_leader_locks closed n s now = (s, n)
  release_leader_locks broken n s now = (s, record n { held_locks = [] })
  release_leader_locks answers n s now =
      (release_all s n.held_locks n.node_id now, record n { held_locks = [] })
