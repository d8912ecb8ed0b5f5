-- ===== src/VideoCall/Billing/Minutes.antt =====
-- On src/modules/videoCall/service.js. Which minutes a billing pass charges.
use live_server.Common.{
  ℕ, zero, suc, Bool, true, false, ◌&&◌, not, none, some, List, [], ◌∷◌, if◌then◌else◌,
}
use live_server.VideoCall.Billing.{
  LedgerReply, billed, Minute, BillEffect, charge, schedule_low_coin, end_insufficient, Pass, skips,
}

abbrev pub charged : List BillEffect → List ℕ
charged [] = []
charged (charge m ∷ es) = m ∷ charged es
charged (schedule_low_coin m at ∷ es) = charged es
charged (end_insufficient ∷ es) = charged es

-- `n` minutes from `m` on.
abbrev pub consecutive : ℕ → ℕ → List ℕ
consecutive m zero = []
consecutive m (suc n) = m ∷ consecutive (suc m) n

abbrev pub is_billed : LedgerReply → Bool
is_billed billed = true
is_billed _ = false

abbrev pub wallet_read : Minute → Bool
wallet_read w =
    if w.low_coin_pending then true else elim w.coins_after [ none ↦ false | some c ↦ true ]

-- How many of `left` minutes from `m` on are charged: those before the first that a guard skips or the
-- ledger refuses, and none after one whose balance could not be read.
abbrev pub payable : Pass → ℕ → ℕ → ℕ
payable p m zero = 0
payable p m (suc left) =
    let rest = payable p (suc m) left in
    if not (skips p m) && is_billed (p.minutes m).reply
    then suc (if wallet_read (p.minutes m) then rest else 0)
    else 0
