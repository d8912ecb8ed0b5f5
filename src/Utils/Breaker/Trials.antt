-- ===== src/Utils/Breaker/Trials.antt =====
-- On src/utils/circuitBreaker.js. Any number of concurrent calls of `exec`, as a step relation on
-- the closure and the calls in flight.
use live_server.Common.{
  ℕ, ◌+◌, ◌≤◌, ◌≡◌, refl, Bool, some, List, [], ◌∷◌, ◌++◌, arith, if◌then◌else◌,
}
use live_server.Utils.Breaker.{
  Options, Breaker, create_circuit_breaker, enter, Outcome, success, failure, ignored, settle,
}

-- The breaker, and the `trial` flag of each call that awaits its `fn`.
pub record Calls : Type 0 where
  pub breaker : Breaker
  pub in_flight : List Bool

abbrev pub trials : List Bool → ℕ
trials [] = 0
trials (t ∷ ts) = (if t then 1 else 0) + trials ts

-- A call is admitted at some time, or one in flight settles at some time with some outcome.
pub data Step (o : Options) (s : Calls) (s' : Calls) : Type 0 where
  start :
      (now : ℕ) (b : Breaker) (trial : Bool)
      → enter o s.breaker now ≡ some (b, trial)
      → s' ≡ record { breaker = b; in_flight = trial ∷ s.in_flight }
      → Step o s s'
  finish :
      (xs ys : List Bool) (trial : Bool) (out : Outcome) (now : ℕ)
      → s.in_flight ≡ xs ++ trial ∷ ys
      → s' ≡ record { breaker = settle o trial out s.breaker now; in_flight = xs ++ ys }
      → Step o s s'

pub data Reach (o : Options) : Calls → Type 0 where
  begin : Reach o (record { breaker = create_circuit_breaker; in_flight = [] })
  next : {s s' : Calls} → Reach o s → Step o s s' → Reach o s'

-- `trialInFlight` says how many trials are in flight.
pub IsExact : Calls → Type 0
IsExact s = trials s.in_flight ≡ (if s.breaker.trial_in_flight then 1 else 0)

trials-append : (xs ys : List Bool) → trials (xs ++ ys) ≡ trials xs + trials ys
trials-append [] ys = omega arith
trials-append (x ∷ xs) ys = omega (arith, trials-append xs ys)

Step-IsExact : {o : Options} {s s' : Calls} → Step o s s' → IsExact s → IsExact s'
unfolding IsExact enter settle
Step-IsExact {s = s} (start now b trial e e') h = ground arith
Step-IsExact {s = s} (finish xs ys trial success now e e') h =
    ground (arith, trials-append xs (trial ∷ ys), trials-append xs ys)
Step-IsExact {s = s} (finish xs ys trial failure now e e') h =
    ground (arith, trials-append xs (trial ∷ ys), trials-append xs ys)
Step-IsExact {s = s} (finish xs ys trial ignored now e e') h =
    ground (arith, trials-append xs (trial ∷ ys), trials-append xs ys)

pub Reach-IsExact : {o : Options} {s : Calls} → Reach o s → IsExact s
unfolding IsExact create_circuit_breaker
Reach-IsExact begin = refl
Reach-IsExact (next r st) = Step-IsExact st (Reach-IsExact r)

-- Whatever calls overlap, at most one of those in flight is a trial of the half-open breaker.
pub one_trial : {o : Options} {s : Calls} → Reach o s → trials s.in_flight ≤ 1
unfolding IsExact
one_trial r = ground (arith, Reach-IsExact r)
