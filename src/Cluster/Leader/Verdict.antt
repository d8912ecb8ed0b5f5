-- ===== src/Cluster/Leader/Verdict.antt =====
-- On `isLeader` of src/services/cluster.service.js. What `isLeader` answers, and what shutting
-- down leaves behind.
use live_server.Common.{
  ℕ, ◌≤◌, ◌≡◌, refl, Bool, true, false, not, none, List, [], ◌∷◌, arith, ◌==◌, if◌then◌else◌,
  is_some, is_id, Bool-cases, inl, inr, contains, ◌||◌, ◌&&◌, ◌∙◌, ap,
}
use live_server.Common.Redis.{Redis}
use live_server.Cluster.Leader.{
  answers, Node, leader_ttl_ms, acquire, renew, release, is_leader, release_leader_locks,
  is_leader_by, claim_or_renew, note_lock, drop_lock, release_all,
}

contains-drop_lock : (name : ℕ) (xs : List ℕ) → contains (drop_lock name xs) name ≡ false
contains-drop_lock name [] = refl
contains-drop_lock name (x ∷ xs) = ground (arith, contains-drop_lock name xs)

contains-note_lock :
    (name : ℕ) (leader : Bool) (xs : List ℕ) → contains (note_lock name leader xs) name ≡ leader
contains-note_lock name true xs = ground arith
contains-note_lock name false xs = contains-drop_lock name xs

module _ (r : Redis) where
  open r use {State, get}

  claim_or_renew_lem :
      (p : State × Bool) (name node : ℕ) (between : State → State) (later : ℕ)
      → (claim_or_renew r p name node between later).1
        ≡ (p.1 || is_id (get (between p.0) name later) node)
  unfolding claim_or_renew renew
  claim_or_renew_lem (s, true) name node between later = refl
  claim_or_renew_lem (s, false) name node between later = ground arith

  -- A running node whose Redis answers is told that it leads exactly if the lock was free at the first
  -- command, or held by this very node at the second; its list of held locks records the answer.
  pub is_leader_iff :
      (n : Node) (s : State) (name now : ℕ) (between : State → State) (later : ℕ)
      → n.shutting_down ≡ false
      → let (s', n', leader) = is_leader r answers n s name now between later in
        (leader ≡ (
          not (is_some (get s name now))
          || is_id (get (between (acquire r s name n.node_id now).0) name later) n.node_id))
        × (contains n'.held_locks name ≡ leader)
  unfolding is_leader is_leader_by acquire
  is_leader_iff n s name now between later up = rw up (
    claim_or_renew_lem (acquire r s name n.node_id now) name n.node_id between later
        ∙ ap
            (λ b.
              b || is_id (get (between (acquire r s name n.node_id now).0) name later) n.node_id)
            (r.set_nx_reply s name n.node_id now leader_ttl_ms),
    contains-note_lock name _ n.held_locks,
  )

  -- What one node holds of the keys at a time.
  abbrev pub mine : State → ℕ → ℕ → ℕ → Bool
  mine s node now name = is_id (get s name now) node

  release_others :
      (s : State) (name node now j t : ℕ)
      → now ≤ t
      → mine s node now j ≡ false
      → get (release r s name node now).0 j t ≡ get s j t
  unfolding release
  release_others s name node now j t le h = ground (arith, r.get-del s name j t)

  release-mine :
      (s : State) (name node now j : ℕ)
      → (name == j) ≡ true
      → mine (release r s name node now).0 node now j ≡ false
  unfolding release
  release-mine s name node now j e = ground (arith, r.get-del s name j now)

  release_all_others :
      (s : State) (names : List ℕ) (node now j t : ℕ)
      → now ≤ t
      → mine s node now j ≡ false
      → get (release_all r s names node now) j t ≡ get s j t
  unfolding release_all
  release_all_others s [] node now j t le h = refl
  release_all_others s (name ∷ names) node now j t le h =
      release_all_others (release r s name node now).0 names node now j t le
        (ap (λ o. is_id o node) (release_others s name node now j now (omega arith) h) ∙ h)
      ∙ release_others s name node now j t le h

  release_all-mine :
      (s : State) (names : List ℕ) (node now j : ℕ)
      → contains names j ≡ true
      → mine (release_all r s names node now) node now j ≡ false
  unfolding release_all
  release_all-mine s [] node now j h = cc
  release_all-mine s (name ∷ names) node now j h = elim (Bool-cases (name == j)) [
    | inl e ↦
        let given = release-mine s name node now j e in
        let s' = (release r s name node now).0 in
        ap (λ o. is_id o node) (release_all_others s' names node now j now (omega arith) given)
        ∙ given
    | inr e ↦ release_all-mine (release r s name node now).0 names node now j (ground arith)
  ]

  -- A node that stops gives back every lock on its list that is its own, and leaves every key that is
  -- not its own as it was.
  pub release_leader_locks_own :
      (n : Node) (s : State) (now j t : ℕ)
      → now ≤ t
      → let s' = (release_leader_locks r answers n s now).0 in
        (contains n.held_locks j && mine s' n.node_id now j ≡ false)
        × ((if mine s n.node_id now j then none else get s' j t)
            ≡ (if mine s n.node_id now j then none else get s j t))
  unfolding release_leader_locks
  release_leader_locks_own n s now j t le = (
    ground (arith, release_all-mine s n.held_locks n.node_id now j),
    ground (arith, release_all_others s n.held_locks n.node_id now j t le),
  )
