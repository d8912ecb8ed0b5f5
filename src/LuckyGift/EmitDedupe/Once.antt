-- ===== src/LuckyGift/EmitDedupe/Once.antt =====
-- On src/modules/luckyGift/emitDedupe.js. How often the events are emitted.
use live_server.Common.{
  ℕ, ◌+◌, ◌≤◌, ◌<◌, ◌≡◌, refl, true, false, none, some, List, [], ◌∷◌, arith, ==_refl, lt→ltb,
  if◌then◌else◌, is_some,
}
use live_server.Common.Redis.{Redis}
use live_server.LuckyGift.EmitDedupe.{ttl_ms, up, claim_lucky_emit}

module _ (r : Redis) where
  open r use {State, get, set_nx, set_nx_reply, get-set_nx}

  -- `withLuckyEmitOnce` at each of the times, by any node: how often the events are emitted.
  abbrev pub emits : State → ℕ → List ℕ → ℕ
  emits st id [] = 0
  emits st id (t ∷ ts) =
      let (st', claimed) = claim_lucky_emit r true up st (some id) t in
      (if claimed then 1 else 0) + emits st' id ts

  -- The times do not fall, and end before `until`.
  abbrev pub Within : ℕ → ℕ → List ℕ → Type 0
  Within t until [] = Unit {0}
  Within t until (u ∷ us) = (t ≤ u) × (u < until) × Within u until us

  claimed_stays :
      (st : State) (id t until : ℕ) (ts : List ℕ)
      → ((u : ℕ) → t ≤ u → u < until → is_some (get st id u) ≡ true)
      → Within t until ts
      → emits st id ts ≡ 0
  unfolding claim_lucky_emit
  claimed_stays st id t until [] h w = refl
  claimed_stays st id t until (u ∷ us) h w =
      let taken : (set_nx st id 1 u ttl_ms).1 ≡ false =
        rw (set_nx_reply st id 1 u ttl_ms) (rw (h u w.0 w.1) refl) in
      let kept : (v : ℕ)
          → u ≤ v
          → v < until
          → is_some (get (set_nx st id 1 u ttl_ms).0 id v) ≡ true =
        λ v a b.
          rw (get-set_nx st id 1 u ttl_ms id v a)
            (rw (h u w.0 w.1) (rw (==_refl id) (h v (omega (arith, w.0)) b))) in
      rw taken (omega (arith, claimed_stays (set_nx st id 1 u ttl_ms).0 id u until us kept w.2))

  -- With the feature on and Redis up, the retries of one gift within a day, on any nodes and in any
  -- order, emit its events exactly once.
  pub emitted_once :
      (st : State) (id t : ℕ) (ts : List ℕ)
      → get st id t ≡ none
      → Within t (t + ttl_ms) ts
      → emits st id (t ∷ ts) ≡ 1
  unfolding claim_lucky_emit
  emitted_once st id t ts h w =
      let free : is_some (get st id t) ≡ false = rw h refl in
      let won : (set_nx st id 1 t ttl_ms).1 ≡ true =
        rw (set_nx_reply st id 1 t ttl_ms) (rw free refl) in
      let held : (v : ℕ)
          → t ≤ v
          → v < t + ttl_ms
          → is_some (get (set_nx st id 1 t ttl_ms).0 id v) ≡ true =
        λ v a b.
          rw (get-set_nx st id 1 t ttl_ms id v a)
            (rw free (rw (==_refl id) (rw (lt→ltb v (t + ttl_ms) b) refl))) in
      rw won (rw (claimed_stays (set_nx st id 1 t ttl_ms).0 id t (t + ttl_ms) ts held w) refl)
