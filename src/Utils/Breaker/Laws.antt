-- ===== src/Utils/Breaker/Laws.antt =====
-- On src/utils/circuitBreaker.js. When the breaker opens, how long it stays open, and what a
-- trial decides.
use live_server.Common.{ℕ, suc, ◌+◌, ◌<◌, ◌≡◌, refl, false, none, List, [], ◌∷◌, arith, length}
use live_server.Utils.Breaker.{
  Options, Breaker, closed, create_circuit_breaker, state, enter, failure, exec,
}

-- Consecutive failing calls, each at its own time and with nothing in between.
abbrev pub fail_all : Options → Breaker → List ℕ → Breaker
fail_all o b [] = b
fail_all o b (t ∷ ts) = fail_all o (exec o b t (λ b'. b') failure t).0 ts

-- `Fresh`: closed, with `n` failures counted.
abbrev pub Counts : ℕ → Breaker → Type 0
Counts n b = (b.failures ≡ n) × (b.opened_at ≡ 0) × (b.trial_in_flight ≡ false)

exec-Counts :
    (o : Options) (b : Breaker) (n t : ℕ)
    → Counts n b
    → suc n < o.failure_threshold
    → Counts (suc n) (exec o b t (λ b'. b') failure t).0
unfolding exec
exec-Counts o b n t h lt = ground arith

exec_trips :
    (o : Options) (b : Breaker) (n t : ℕ)
    → Counts n b
    → suc n ≡ o.failure_threshold
    → 0 < t
    → ((exec o b t (λ b'. b') failure t).0.opened_at ≡ t)
      × ((exec o b t (λ b'. b') failure t).0.trial_in_flight ≡ false)
unfolding exec
exec_trips o b n t h e p = ground arith

fail_all-Counts :
    (o : Options) (b : Breaker) (n : ℕ) (ts : List ℕ)
    → Counts n b
    → n + length ts < o.failure_threshold
    → Counts (n + length ts) (fail_all o b ts)
fail_all-Counts o b n [] h lt = ground arith
fail_all-Counts o b n (t ∷ ts) h lt =
    let rest =
      fail_all-Counts o (exec o b t (λ b'. b') failure t).0 (suc n) ts
        (exec-Counts o b n t h (omega arith)) (omega arith) in
    subst_count (omega arith) rest
  where
    subst_count : {m k : ℕ} {c : Breaker} → m ≡ k → Counts m c → Counts k c
    subst_count e (f, p, q) = (ground arith, p, q)

-- Fewer consecutive failures than the threshold leave a new breaker closed, and one more at `t` opens
-- it: calls are refused until `t + openMs`.
pub fail_all_opens :
    (o : Options) (ts : List ℕ) (t now : ℕ)
    → suc (length ts) ≡ o.failure_threshold
    → 0 < t
    → now < t + o.open_ms
    → let b = fail_all o create_circuit_breaker ts in
      let b' = (exec o b t (λ c. c) failure t).0 in (state o b t ≡ closed) × (enter o b' now ≡ none)
unfolding create_circuit_breaker enter
fail_all_opens o ts t now e p lt =
    let h = fail_all-Counts o create_circuit_breaker 0 ts (refl, refl, refl) (omega arith) in
    let b = fail_all o create_circuit_breaker ts in
    let q = exec_trips o b (0 + length ts) t h (omega arith) p in (ground arith, ground arith)
