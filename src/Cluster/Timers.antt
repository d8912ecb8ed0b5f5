-- ===== src/Cluster/Timers.antt =====
-- The durable timers (L4) of src/services/cluster.service.js, while Redis is open. A member stands for
-- "<kind>|<key>". Several nodes act in any order, and a node may stop between the claim of a deadline
-- and the read of its payload.
pub mod Deadlines
pub mod Claims
use live_server.Common.{
  ℕ, zero, suc, ◌+◌, Bool, true, false, ◌&&◌, not, Option, none, some, List, [], ◌∷◌, ◌==◌, ltb,
  leb, if◌then◌else◌, is_some,
}
use live_server.Common.Store.{Store₂, put₂, del₂}
use live_server.Cluster.Timers.Deadlines.{DeadlineStore}

abbrev pub sweep_grace_ms : ℕ
sweep_grace_ms = 1500

-- A claimed deadline whose payload is not read yet, with the payload of the local timer, if it was
-- that timer which claimed it.
pub record Claim : Type 0 where
  pub member : ℕ
  pub local_payload : Option ℕ

-- A handler that was run.
pub record Run : Type 0 where
  pub member : ℕ
  pub payload : Option ℕ

-- The k-th claim and the others.
abbrev behind : Claim → Option (Claim × List Claim) → Option (Claim × List Claim)
behind c none = none
behind c (some (x, xs)) = some (x, c ∷ xs)

abbrev pub pluck : ℕ → List Claim → Option (Claim × List Claim)
pluck zero [] = none
pluck (suc k) [] = none
pluck zero (c ∷ cs) = some (c, cs)
pluck (suc k) (c ∷ cs) = behind c (pluck k cs)

module _ (d : DeadlineStore) where
  open d use {State, z_score, h_get, multi_add, multi_remove, z_rem, h_del}

  -- What Redis holds, `localTimers` of every node with the payload of each timer, the claims in
  -- flight, and the handlers run.
  pub record World : Type 0 where
    pub shared : State
    pub local_timers : Store₂ ℕ
    pub claims : List Claim
    pub runs : List Run

  unfoldable pub schedule_durable : World → ℕ → ℕ → ℕ → ℕ → World
  schedule_durable w node member at payload = record w {
    shared = multi_add w.shared member at payload;
    local_timers = put₂ w.local_timers node member payload;
  }

  unfoldable pub cancel_durable : World → ℕ → ℕ → World
  cancel_durable w node member = record w {
    shared = multi_remove w.shared member;
    local_timers = del₂ w.local_timers node member;
  }

  unfoldable pub has_durable : World → ℕ → ℕ → Bool
  has_durable w node member =
      if is_some (w.local_timers node member) then true else is_some (z_score w.shared member)

  add_claim : World → ℕ → Option ℕ → State × ℕ → World
  add_claim w member local_payload (st, removed) =
      if removed == 1
      then record w {
        shared = st;
        claims = record { member = member; local_payload = local_payload } ∷ w.claims;
      }
      else record w { shared = st }

  -- `fire` up to the answer of ZREM.
  claim : World → ℕ → ℕ → Option ℕ → World
  unfolding add_claim
  claim w node member local_payload =
      add_claim (record w { local_timers = del₂ w.local_timers node member }) member local_payload
        (z_rem w.shared member)

  or_local : Option ℕ → Option ℕ → Option ℕ
  or_local none local_payload = local_payload
  or_local (some p) local_payload = some p

  -- The rest of `fire`: read and delete the payload, and run the handler.
  finish : World → Claim → List Claim → World
  unfolding or_local
  finish w c others = record w {
    shared = h_del w.shared c.member;
    claims = others;
    runs =
        record { member = c.member; payload = or_local (h_get w.shared c.member) c.local_payload }
        ∷ w.runs;
  }

  -- Whether the sweeper of a node fires a member.
  is_due : Option ℕ → ℕ → Bool
  is_due none now = false
  is_due (some at) now = leb (at + sweep_grace_ms) now

  -- What happens: a request, a local timer that goes off, the sweep of one member, a claim going on,
  -- and the end of a node.
  pub data Event : Type 0 where
    schedules : ℕ → ℕ → ℕ → ℕ → Event
    cancels : ℕ → ℕ → Event
    timer_fires : ℕ → ℕ → Event
    sweeps : ℕ → ℕ → ℕ → Event
    goes_on : ℕ → Event
    stops : ℕ → Event

  finish_plucked : World → Option (Claim × List Claim) → World
  unfolding finish
  finish_plucked w none = w
  finish_plucked w (some (c, cs)) = finish w c cs

  fire_local : World → ℕ → ℕ → Option ℕ → World
  unfolding claim
  fire_local w node member none = w
  fire_local w node member (some p) = claim w node member (some p)

  unfoldable pub happens : World → Event → World
  unfolding schedule_durable cancel_durable claim finish_plucked fire_local is_due
  happens w (schedules node member at payload) = schedule_durable w node member at payload
  happens w (cancels node member) = cancel_durable w node member
  happens w (timer_fires node member) = fire_local w node member (w.local_timers node member)
  happens w (sweeps node member now) =
      if is_due (z_score w.shared member) now && not (is_some (w.local_timers node member))
      then claim w node member none
      else w
  happens w (goes_on k) = finish_plucked w (pluck k w.claims)
  happens w (stops node) = record w {
    local_timers = λ n. if n == node then (λ m. none) else w.local_timers n;
  }

  abbrev pub happen : World → List Event → World
  happen w [] = w
  happen w (e ∷ es) = happen (happens w e) es
