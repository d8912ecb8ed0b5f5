-- ===== src/VideoCall/Billing/Stops.antt =====
-- On src/modules/videoCall/service.js. What stops a billing pass, and what it then asks for.
use live_server.Common.{
  ℕ, zero, suc, ◌+◌, ◌-◌, ◌*◌, ◌≤◌, ◌<◌, ◌≡◌, refl, false, Option, none, some, List, [], ◌∷◌, arith,
  All, Bool-cases, inl, inr,
}
use live_server.VideoCall.Billing.{
  hb_enforce, LedgerReply, billed, insufficient_coins, call_not_active, minute_out_of_order,
  other_error, BillEffect, charge, schedule_low_coin, end_insufficient, Pass, minute_start,
  minute_end, bill_heartbeat_stale_ms, current_minute, skips, check_coins, after_reply, bill_from,
  bill_due_minutes,
}
use live_server.VideoCall.Billing.Minutes.{charged}

module _ (P : BillEffect → Type 0) (p : Pass)
    (charge_ok : (m : ℕ) → skips p m ≡ false → P (charge m)) (end_ok : P end_insufficient)
    (low_ok : (m coins : ℕ)
      → (p.minutes m).coins_after ≡ some coins
      → coins < p.coin_rate
      → P (schedule_low_coin m (minute_end p.session m))) where
  check_coins-All :
      (m : ℕ) (o : Option ℕ) (rest : List BillEffect)
      → (p.minutes m).coins_after ≡ o
      → All P rest
      → All P (check_coins p m o rest)
  unfolding check_coins
  check_coins-All m none rest e h = tt
  check_coins-All m (some coins) rest e h = ground (arith, low_ok m coins e)

  reply-All :
      (r : LedgerReply) (m : ℕ) (rest : List BillEffect)
      → skips p m ≡ false
      → All P rest
      → All P (after_reply r p m rest)
  unfolding after_reply
  reply-All billed m rest free h =
      ground (arith, charge_ok m free, check_coins-All m (p.minutes m).coins_after rest refl h)
  reply-All insufficient_coins m rest free h = (end_ok, tt)
  reply-All call_not_active m rest free h = tt
  reply-All minute_out_of_order m rest free h = tt
  reply-All other_error m rest free h = tt

  bill_from-All : (m left : ℕ) → All P (bill_from p m left)
  unfolding bill_from
  bill_from-All m zero = tt
  bill_from-All m (suc left) = elim (Bool-cases (skips p m)) [
    | inl e ↦ rw e tt
    | inr e ↦ rw e (reply-All (p.minutes m).reply m _ e (bill_from-All (suc m) left))
  ]

  bill-All : (now : ℕ) → All P (bill_due_minutes p now)
  unfolding bill_due_minutes
  bill-All now =
      let c = p.session.mins_charged in
      bill_from-All (suc c) (current_minute p.session.started_at now - c)

-- A property of the charged minutes, as one of the effects.
abbrev OnCharge : (ℕ → Type 0) → BillEffect → Type 0
OnCharge Q (charge m) = Q m
OnCharge Q (schedule_low_coin m at) = Unit {0}
OnCharge Q end_insufficient = Unit {0}

charged-All : (Q : ℕ → Type 0) (es : List BillEffect) → All (OnCharge Q) es → All Q (charged es)
charged-All Q [] h = tt
charged-All Q (charge m ∷ es) h = (h.0, charged-All Q es h.1)
charged-All Q (schedule_low_coin m at ∷ es) h = charged-All Q es h.1
charged-All Q (end_insufficient ∷ es) h = charged-All Q es h.1

bill-charged :
    (Q : ℕ → Type 0) (p : Pass) (now : ℕ)
    → ((m : ℕ) → skips p m ≡ false → Q m)
    → All Q (charged (bill_due_minutes p now))
bill-charged Q p now ok =
    charged-All Q (bill_due_minutes p now) (bill-All (OnCharge Q) p ok tt (λ m coins e lt. tt) now)

awake :
    (p : Pass) (hb m : ℕ)
    → p.hb_mode ≡ hb_enforce
    → p.call_heartbeat ≡ some hb
    → skips p m ≡ false
    → minute_start p.session m ≤ hb + bill_heartbeat_stale_ms
unfolding skips
awake p hb m mode e free = ground (arith, mode, e)

-- In mode enforce no minute is charged that starts more than 30 s after the last heartbeat.
pub charged-heartbeat :
    (p : Pass) (hb now : ℕ)
    → p.hb_mode ≡ hb_enforce
    → p.call_heartbeat ≡ some hb
    → All
        (λ m. minute_start p.session m ≤ hb + bill_heartbeat_stale_ms)
        (charged (bill_due_minutes p now))
charged-heartbeat p hb now mode e = bill-charged _ p now (λ m. awake p hb m mode e)

present :
    (p : Pass) (disc m : ℕ)
    → (p.minutes m).disconnected_at ≡ some disc
    → skips p m ≡ false
    → minute_start p.session m + 5000 < disc
unfolding skips
present p disc m e free = ground (arith, e)

-- In every mode, a caller whose disconnect is on record is charged only for minutes that started
-- more than 5 s before it.
pub charged-disconnect :
    (p : Pass) (disc now : ℕ)
    → ((m : ℕ) → (p.minutes m).disconnected_at ≡ some disc)
    → All (λ m. minute_start p.session m + 5000 < disc) (charged (bill_due_minutes p now))
charged-disconnect p disc now e = bill-charged _ p now (λ m. present p disc m (e m))

abbrev pub LowCoin : Pass → BillEffect → Type 0
LowCoin p (charge m) = Unit {0}
LowCoin p end_insufficient = Unit {0}
LowCoin p (schedule_low_coin m at) =
    (at ≡ p.session.started_at + m * 60000)
    × ((coins : ℕ) × ((p.minutes m).coins_after ≡ some coins) × (coins < p.coin_rate))

-- A disconnect is scheduled only after a minute that left the caller with less than the price of the
-- next one, for the end of that minute.
pub disconnect_justified : (p : Pass) (now : ℕ) → All (LowCoin p) (bill_due_minutes p now)
disconnect_justified p now =
    bill-All (LowCoin p) p (λ m free. tt) tt (λ m coins e lt. (refl, (coins, e, lt))) now
