-- ===== src/Cluster/Timers/Deadlines.antt =====
-- The sorted set `live:deadlines` and the hash `live:deadlines:payload`. Redis is not part of the server:
-- the commands are parameters, with the laws that its manual documents.
use live_server.Common.{ℕ, ◌≡◌, refl, Option, none, some, ◌==◌, if◌then◌else◌, is_some}
use live_server.Common.Store.{Store, put, del}

pub record DeadlineStore : Type 1 where
  pub State : Type 0
  pub z_score : State → ℕ → Option ℕ
  pub h_get : State → ℕ → Option ℕ
  -- MULTI ZADD HSET, and MULTI ZREM HDEL
  pub multi_add : State → ℕ → ℕ → ℕ → State
  pub multi_remove : State → ℕ → State
  -- with the number of members removed
  pub z_rem : State → ℕ → State × ℕ
  pub h_del : State → ℕ → State
  pub z_rem_count : (s : State) (k : ℕ) → (z_rem s k).1 ≡ (if is_some (z_score s k) then 1 else 0)
  pub z_score-z_rem :
      (s : State) (k j : ℕ) → z_score (z_rem s k).0 j ≡ (if j == k then none else z_score s j)
  pub z_score-add :
      (s : State) (k at p j : ℕ)
      → z_score (multi_add s k at p) j ≡ (if j == k then some at else z_score s j)
  pub z_score-remove :
      (s : State) (k j : ℕ) → z_score (multi_remove s k) j ≡ (if j == k then none else z_score s j)
  pub z_score-h_del : (s : State) (k j : ℕ) → z_score (h_del s k) j ≡ z_score s j
  pub h_get-z_rem : (s : State) (k j : ℕ) → h_get (z_rem s k).0 j ≡ h_get s j
  pub h_get-add :
      (s : State) (k at p j : ℕ)
      → h_get (multi_add s k at p) j ≡ (if j == k then some p else h_get s j)

-- Two stores have these laws.
abbrev pub store_deadlines : DeadlineStore
store_deadlines = record {
  State = Store ℕ × Store ℕ;
  z_score = λ s k. s.0 k;
  h_get = λ s k. s.1 k;
  multi_add = λ s k at p. (put s.0 k at, put s.1 k p);
  multi_remove = λ s k. (del s.0 k, del s.1 k);
  z_rem = λ s k. ((del s.0 k, s.1), if is_some (s.0 k) then 1 else 0);
  h_del = λ s k. (s.0, del s.1 k);
  z_rem_count = λ s k. refl;
  z_score-z_rem = λ s k j. refl;
  z_score-add = λ s k at p j. refl;
  z_score-remove = λ s k j. refl;
  z_score-h_del = λ s k j. refl;
  h_get-z_rem = λ s k j. refl;
  h_get-add = λ s k at p j. refl;
}
