-- ===== src/Examples/Utils.antt =====
-- src/utils at concrete inputs.
use mathlib.Core.List.{reverse}
use live_server.Utils.CoinRestriction.{
  Coins, toggle_user_coins_freeze, begin_check, end_check, check_coins_frozen_fast,
}
use live_server.Utils.CoinRestriction.Race.{freeze_overtaken}
use live_server.Common.{
  ◌+◌, ◌*◌, ◌≤◌, ◌≡◌, ◌⊎◌, refl, true, false, none, some, List, [], ◌∷◌, All, length, arith,
}
use live_server.Utils.TokenBucket.{take_token}
use live_server.Utils.TokenBucket.Rate.{take_all}
use live_server.Utils.ForEachLimit.{
  Run, begin, next_step, State, take, finish, stop, idle, stopped, busy, width, start,
}
use live_server.Utils.ForEachLimit
use live_server.Utils.ForEachLimit.Runs.{IsStopped, running, times, runs_end}
use live_server.Utils.Censor.{
  Text, to_lower_case, get_levenshtein_distance, censor_parts, is_banned_word, Verdict, reaches,
}
use live_server.Utils.Censor.Distance.{Edits, nothing, keep, drop, add, distance_least}

take_all_run : (take_all 2 1000 none (0 ∷ 0 ∷ 0 ∷ 1000 ∷ [])).0 ≡ 3
unfolding take_token
take_all_run = refl

-- One worker and two items, the first of which fails.
abbrev two_items : State
two_items = record { next = 2; workers = stopped ∷ []; finished = 1 ∷ 0 ∷ []; first_err = some 0 }

two_items-Run : Run 2 false (some 1) 5 two_items
unfolding start
two_items-Run =
    next_step
      (next_step
        (next_step
          (next_step (next_step begin (take [] [] refl (omega arith) refl))
            (finish [] [] 0 false refl refl))
          (take [] [] refl (omega arith) refl))
        (finish [] [] 1 true refl refl))
      (stop [] [] refl (omega arith) refl)

runs_end_example :
    (5 ≤ 2 * 2 + width 2 (some 1))
    × (All IsStopped two_items.workers ⊎ ((s' : State) × ForEachLimit.Step 2 false two_items s'))
    × (length two_items.workers ≡ width 2 (some 1))
    × (running 1 two_items.workers + times 1 two_items.finished ≤ 1)
runs_end_example = runs_end 1 two_items-Run

-- "Cat" and "cut"
abbrev cat : Text
cat = 67 ∷ 97 ∷ 116 ∷ []

abbrev cut : Text
cut = 99 ∷ 117 ∷ 116 ∷ []

distance_run : get_levenshtein_distance cat cut ≡ 1
unfolding get_levenshtein_distance
distance_run = refl

-- Dropping and adding the vowel is an edit more.
roundabout : Edits (reverse (to_lower_case cat)) (reverse (to_lower_case cut)) 2
roundabout = keep 116 (drop 97 (add 117 (keep 99 nothing)))

distance_least_example :
    Edits
      (reverse (to_lower_case cat))
      (reverse (to_lower_case cut))
      (get_levenshtein_distance cat cut)
    × (get_levenshtein_distance cat cut ≤ 2)
distance_least_example = distance_least cat cut 2 roundabout

-- The word "cuts" is banned, and the memo knows "cut".
abbrev banned : List Text
banned = (99 ∷ 117 ∷ 116 ∷ 115 ∷ []) ∷ []

abbrev known : List Verdict
known = record { word = cut; is_banned = true } ∷ []

censor_run :
    (censor_parts banned 70 known (cut ∷ (32 ∷ []) ∷ cat ∷ [])).1
    ≡ (42 ∷ 42 ∷ 42 ∷ []) ∷ (32 ∷ []) ∷ cat ∷ []
unfolding censor_parts is_banned_word reaches get_levenshtein_distance
censor_run = refl

abbrev thawed : Coins
thawed = record { personal_coins_frozen = false; flag = none }

freeze_overtaken_example :
    let between = toggle_user_coins_freeze 1005 thawed true in
    let (after, throws) = end_check 1010 between (begin_check 1000 thawed) in
    (after.personal_coins_frozen ≡ true)
    × (throws ≡ false)
    × ((check_coins_frozen_fast 200000 after).1 ≡ false)
freeze_overtaken_example = freeze_overtaken thawed 1000 1005 1010 200000 refl refl (omega arith)
