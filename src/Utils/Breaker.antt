-- ===== src/Utils/Breaker.antt =====
-- src/utils/circuitBreaker.js. `exec` awaits its callback, so a call is two atomic parts, `enter` and
-- `settle`, and other calls may run between them. The clock is an argument of each part.
pub mod Laws
pub mod Trials
use live_server.Common.{
  ℕ, suc, ◌+◌, Bool, true, false, ◌&&◌, ◌||◌, not, Option, none, some, ◌==◌, leb, if◌then◌else◌,
}

pub record Options : Type 0 where
  pub failure_threshold : ℕ
  pub open_ms : ℕ

-- The closure's variables; `opened_at` is 0 while the breaker is closed.
pub record Breaker : Type 0 where
  pub failures : ℕ
  pub opened_at : ℕ
  pub trial_in_flight : Bool

pub data BreakerState : Type 0 where
  closed half_open opened : BreakerState

unfoldable pub create_circuit_breaker : Breaker
create_circuit_breaker = record { failures = 0; opened_at = 0; trial_in_flight = false }

unfoldable pub state : Options → Breaker → ℕ → BreakerState
state o b now =
    if b.opened_at == 0
    then closed
    else if leb (b.opened_at + o.open_ms) now
    then half_open
    else opened

-- The part of `exec` before `await fn()`: `none` is the `CircuitOpenError`, and the flag that comes
-- back is `trial`.
pub enter_by : BreakerState → Breaker → Option (Breaker × Bool)
enter_by closed b = some (b, false)
enter_by opened b = none
enter_by half_open b =
    if b.trial_in_flight then none else some (record b { trial_in_flight = true }, true)

unfoldable pub enter : Options → Breaker → ℕ → Option (Breaker × Bool)
unfolding enter_by state
enter o b now = enter_by (state o b now) b

-- How `fn` ended: `isFailure(err)` tells the last two apart.
pub data Outcome : Type 0 where
  success failure ignored : Outcome

-- The `finally` block.
abbrev clear_trial : Bool → Breaker → Breaker
clear_trial trial b = if trial then record b { trial_in_flight = false } else b

-- The part of `exec` after `await fn()`, at the time `now`.
unfoldable pub settle : Options → Bool → Outcome → Breaker → ℕ → Breaker
settle o trial success b now = clear_trial trial (record b { failures = 0; opened_at = 0 })
settle o trial ignored b now = clear_trial trial b
settle o trial failure b now = clear_trial trial (
    if trial || leb o.failure_threshold (suc b.failures)
    then record b { failures = suc b.failures; opened_at = now }
    else record b { failures = suc b.failures })

pub data Reply : Type 0 where
  circuit_open returned threw : Reply

abbrev reply_of : Outcome → Reply
reply_of success = returned
reply_of failure = threw
reply_of ignored = threw

-- `exec`: `during` is what other calls did to the closure while `fn` was awaited, and `later` the
-- time at which `fn` was settled.
unfoldable pub exec : Options → Breaker → ℕ → (Breaker → Breaker) → Outcome → ℕ → Breaker × Reply
unfolding enter settle
exec o b now during out later = elim (enter o b now) [
  | none ↦ (b, circuit_open)
  | some (b', trial) ↦ (settle o trial out (during b') later, reply_of out)
]
