-- ===== src/Utils/CoinRestriction/Race.antt =====
-- On src/utils/coinRestriction.js. The check alone, and a check that a freeze overtakes.
use live_server.Common.{
  ℕ, ◌+◌, ◌<◌, ◌≡◌, refl, Bool, true, false, Option, none, some, List, [], ◌∷◌, arith, ltb,
  Bool-cases, inl, inr,
}
use live_server.Utils.CoinRestriction.{
  Flag, Coins, flag_ms, begin_check, end_check, check_coins_frozen_fast, toggle_user_coins_freeze,
}

-- The flag says what the table says.
abbrev AgreesWith : Bool → Option Flag → Type 0
AgreesWith frozen none = Unit
AgreesWith frozen (some f) = f.is_frozen ≡ frozen

abbrev pub Agree : Coins → Type 0
Agree c = AgreesWith c.personal_coins_frozen c.flag

check_by_flag :
    (now : ℕ) (frozen : Bool) (o : Option Flag)
    → AgreesWith frozen o
    → let c : Coins = record { personal_coins_frozen = frozen; flag = o } in
      let (c', throws) = check_coins_frozen_fast now c in
      Agree c' × (c'.personal_coins_frozen ≡ frozen) × (throws ≡ frozen)
unfolding check_coins_frozen_fast begin_check end_check
check_by_flag now frozen none h = (refl, refl, refl)
check_by_flag now frozen (some f) h = elim (Bool-cases (ltb now f.expires_at)) [
  | inl kept ↦ rw kept (h, refl, h)
  | inr gone ↦ rw gone (refl, refl, refl)
]

-- Checks and toggles of one user, one after the other.
pub data Op : Type 0 where
  check : Op
  toggle : Bool → Op

pub run : Coins → List (ℕ × Op) → Coins
run c [] = c
run c ((now, check) ∷ ops) = run (check_coins_frozen_fast now c).0 ops
run c ((now, toggle frozen) ∷ ops) = run (toggle_user_coins_freeze now c frozen) ops

run-Agree : (c : Coins) (ops : List (ℕ × Op)) → Agree c → Agree (run c ops)
unfolding run toggle_user_coins_freeze
run-Agree c [] h = h
run-Agree c ((now, check) ∷ ops) h =
    run-Agree (check_coins_frozen_fast now c).0 ops
      (check_by_flag now c.personal_coins_frozen c.flag h).0
run-Agree c ((now, toggle frozen) ∷ ops) h =
    run-Agree (toggle_user_coins_freeze now c frozen) ops refl

-- Where no toggle comes between the two parts of a check, every check throws just where the table says
-- that the coins are frozen.
pub check_exact :
    (c : Coins) (ops : List (ℕ × Op)) (now : ℕ)
    → Agree c
    → (check_coins_frozen_fast now (run c ops)).1 ≡ (run c ops).personal_coins_frozen
check_exact c ops now h =
    let c' : Coins = run c ops in
    (check_by_flag now c'.personal_coins_frozen c'.flag (run-Agree c ops h)).2

-- A freeze that comes while a check reads the table is lost on the checks: they pass for five minutes
-- after the end of the first, though the coins are frozen.
pub freeze_overtaken :
    (c : Coins) (begun frozen_at ended later : ℕ)
    → c.personal_coins_frozen ≡ false
    → c.flag ≡ none
    → later < ended + flag_ms
    → let between = toggle_user_coins_freeze frozen_at c true in
      let (after, throws) = end_check ended between (begin_check begun c) in
      (after.personal_coins_frozen ≡ true)
      × (throws ≡ false)
      × ((check_coins_frozen_fast later after).1 ≡ false)
unfolding toggle_user_coins_freeze check_coins_frozen_fast begin_check end_check
freeze_overtaken c begun frozen_at ended later thawed uncached soon =
    ground (arith, thawed, uncached, soon)
