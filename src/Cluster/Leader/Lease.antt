-- ===== src/Cluster/Leader/Lease.antt =====
-- On `isLeader` of src/services/cluster.service.js. Any interleaving of the lock's commands by
-- any nodes: who may lead when.
use live_server.Common.{
  ℕ, ◌+◌, ◌≤◌, ◌<◌, ◌≡◌, refl, Bool, true, false, ◌&&◌, ◌||◌, not, some, List, [], ◌∷◌, arith, ◌==◌,
}
use live_server.Common.Redis.{Redis}
use live_server.Cluster.Leader.{leader_ttl_ms, acquire, renew, release}

pub data Command : Type 0 where
  acquires renews releases : Command

-- One command on one lock by one node at a time.
pub record Act : Type 0 where
  pub command : Command
  pub name : ℕ
  pub node : ℕ
  pub now : ℕ

module _ (r : Redis) where
  open r use {State, get}

  run_command : Command → State → ℕ → ℕ → ℕ → State × Bool
  run_command acquires s name node now = acquire r s name node now
  run_command renews s name node now = renew r s name node now
  run_command releases s name node now = release r s name node now

  unfoldable pub perform : State → Act → State × Bool
  unfolding run_command
  perform s a = run_command a.command s a.name a.node a.now

  -- An act in force tells its node that it leads.
  abbrev pub leads : Act → Bool → Bool
  leads a verdict = elim a.command [ acquires ↦ verdict | renews ↦ verdict | releases ↦ false ]

  -- Some other node than `node` is told that it leads `name`.
  abbrev pub usurps : ℕ → ℕ → Act → Bool → Bool
  usurps name node a verdict = leads a verdict && (a.name == name) && not (a.node == node)

  pub any_usurps : ℕ → ℕ → State → List Act → Bool
  any_usurps name node s [] = false
  any_usurps name node s (a ∷ rest) =
      let (s', verdict) = perform s a in usurps name node a verdict || any_usurps name node s' rest

-- The node that leads gives its lock back.
abbrev pub gives_up : ℕ → ℕ → Act → Bool
gives_up name node a = elim a.command [
  | acquires ↦ false
  | renews ↦ false
  | releases ↦ (a.name == name) && (a.node == node)
]

-- Commands in the order of their times, from `t` on and before `until`, with no release by the leader.
abbrev pub InLease : ℕ → ℕ → ℕ → ℕ → List Act → Type 0
InLease name node t until [] = Unit {0}
InLease name node t until (a ∷ rest) =
    (t ≤ a.now)
    × (a.now < until)
    × (gives_up name node a ≡ false)
    × InLease name node a.now until rest

module _ (r : Redis) where
  open r use {State, get}

  Owned : State → ℕ → ℕ → ℕ → ℕ → Type 0
  Owned s name node now until = (t : ℕ) → now ≤ t → t < until → get s name t ≡ some node

  acquire-Owned :
      (s : State) (name node until now other m : ℕ)
      → Owned s name node now until
      → now < until
      → Owned (acquire r s m other now).0 name node now until
        × ((acquire r s m other now).1 && (m == name) ≡ false)
  unfolding acquire Owned
  acquire-Owned s name node until now other m own lt = (
    λ t le lt'. ground (
      arith,
      r.get-set_nx s m other now leader_ttl_ms name t,
      own t le lt',
      own now (omega arith) lt,
    ),
    ground (arith, r.set_nx_reply s m other now leader_ttl_ms, own now (omega arith) lt),
  )

  renew-Owned :
      (s : State) (name node until now other m : ℕ)
      → Owned s name node now until
      → now < until
      → until ≤ now + leader_ttl_ms
      → Owned (renew r s m other now).0 name node now until
        × ((renew r s m other now).1 && (m == name) && not (other == node) ≡ false)
  unfolding renew Owned
  renew-Owned s name node until now other m own lt long = (
    λ t le lt'.
        ground (
          arith,
          r.get-pexpire s m now leader_ttl_ms name t,
          own t le lt',
          own now (omega arith) lt,
        ),
    ground (arith, own now (omega arith) lt),
  )

  release-Owned :
      (s : State) (name node until now other m : ℕ)
      → Owned s name node now until
      → now < until
      → (m == name) && (other == node) ≡ false
      → Owned (release r s m other now).0 name node now until
  unfolding release Owned
  release-Owned s name node until now other m own lt kept t le lt' =
      ground (arith, r.get-del s m name t, own t le lt', own now (omega arith) lt)

  Owned-later :
      (s : State) (name node until t now : ℕ)
      → Owned s name node t until
      → t ≤ now
      → Owned s name node now until
  unfolding Owned
  Owned-later s name node until t now own le u h lt = own u (omega arith) lt

  command-Owned :
      (c : Command) (s : State) (name node until now other m : ℕ)
      → Owned s name node now until
      → now < until
      → until ≤ now + leader_ttl_ms
      → let a : Act = record { command = c; name = m; node = other; now = now } in
        gives_up name node a ≡ false
        → Owned (perform r s a).0 name node now until
          × (usurps r name node a (perform r s a).1 ≡ false)
  unfolding perform
  command-Owned acquires s name node until now other m own lt long kept =
      let p = acquire-Owned s name node until now other m own lt in (p.0, ground (arith, p.1))
  command-Owned renews s name node until now other m own lt long kept =
      renew-Owned s name node until now other m own lt long
  command-Owned releases s name node until now other m own lt long kept =
      (release-Owned s name node until now other m own lt kept, refl)

  no_usurper :
      (s : State) (name node t until : ℕ) (acts : List Act)
      → Owned s name node t until
      → until ≤ t + leader_ttl_ms
      → InLease name node t until acts
      → any_usurps r name node s acts ≡ false
  unfolding any_usurps
  no_usurper s name node t until [] own long h = refl
  no_usurper s name node t until (a ∷ rest) own long h =
      let p =
        command-Owned a.command s name node until a.now a.node a.name
          (Owned-later s name node until t a.now own h.0) h.1 (omega arith) h.2 in
      ground
        (arith, p.1, no_usurper (perform r s a).0 name node a.now until rest p.0 (omega arith) h.3)

  grant-Owned :
      (c : Command) (s : State) (name node now : ℕ)
      → let a : Act = record { command = c; name = name; node = node; now = now } in
        leads r a (perform r s a).1 ≡ true
        → Owned (perform r s a).0 name node now (now + leader_ttl_ms)
  unfolding perform acquire renew Owned
  grant-Owned acquires s name node now ok t le lt = ground (
    arith,
    r.get-set_nx s name node now leader_ttl_ms name t,
    r.set_nx_reply s name node now leader_ttl_ms,
  )
  grant-Owned renews s name node now ok t le lt =
      ground (arith, r.get-pexpire s name now leader_ttl_ms name t)
  grant-Owned releases s name node now ok t le lt = cc

  -- Once a node is told that it leads a loop, no other node is told so before its lease of
  -- `LEADER_TTL_MS` ends, however the lock's commands of all nodes interleave, unless it releases.
  pub leader_exclusive :
      (s : State) (a : Act) (acts : List Act)
      → leads r a (perform r s a).1 ≡ true
      → InLease a.name a.node a.now (a.now + leader_ttl_ms) acts
      → any_usurps r a.name a.node (perform r s a).0 acts ≡ false
  leader_exclusive s a acts ok h =
      no_usurper (perform r s a).0 a.name a.node a.now (a.now + leader_ttl_ms) acts
        (grant-Owned a.command s a.name a.node a.now ok) (omega arith) h
