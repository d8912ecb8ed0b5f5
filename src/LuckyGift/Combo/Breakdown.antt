-- ===== src/LuckyGift/Combo/Breakdown.antt =====
-- On `calculateComboReward` of src/modules/luckyGift/luckyReward.engine.js. The steps of a combo
-- and its reward.
use live_server.Common.{
  ℕ, zero, suc, ◌+◌, ◌-◌, ◌<◌, ◌≡◌, ◌∙◌, min, refl, List, [], ◌∷◌, ltb, arith, length, replicate,
  sum, Bool-cases, inl, inr, ap,
}
use live_server.LuckyGift.Combo.{
  Combo, split, breakdown, step_weights, calculate_combo_reward, step_share,
}

sum-split :
    (w : ℕ) (ws : List ℕ) (weight_sum total remaining : ℕ)
    → sum (split (w ∷ ws) weight_sum total remaining) ≡ remaining
unfolding breakdown
sum-split w [] weight_sum total remaining = omega arith
sum-split w (v ∷ ws) weight_sum total remaining =
    let actual = min (step_share w weight_sum total) remaining in
    omega (arith, sum-split v ws weight_sum total (remaining - actual))

length-split :
    (ws : List ℕ) (weight_sum total remaining : ℕ)
    → length (split ws weight_sum total remaining) ≡ length ws
unfolding breakdown
length-split [] weight_sum total remaining = refl
length-split (w ∷ []) weight_sum total remaining = refl
length-split (w ∷ v ∷ ws) weight_sum total remaining =
    let actual = min (step_share w weight_sum total) remaining in
    ap suc (length-split (v ∷ ws) weight_sum total (remaining - actual))

sum-replicate : (n : ℕ) → sum (replicate n 0) ≡ 0
sum-replicate zero = refl
sum-replicate (suc n) = omega (arith, sum-replicate n)

length-replicate : (n a : ℕ) → length (replicate n a) ≡ n
length-replicate zero a = refl
length-replicate (suc n) a = ap suc (length-replicate n a)

sum-breakdown : (w : ℕ) (ws : List ℕ) (total : ℕ) → sum (breakdown (w ∷ ws) total) ≡ total
unfolding breakdown
sum-breakdown w ws total = elim (Bool-cases (ltb 0 total)) [
  | inl e ↦ rw e (sum-split w ws (w + sum ws) total total)
  | inr e ↦ rw e (ground (arith, sum-replicate (length ws)))
]

length-breakdown : (ws : List ℕ) (total : ℕ) → length (breakdown ws total) ≡ length ws
unfolding breakdown
length-breakdown ws total = elim (Bool-cases (ltb 0 total)) [
  | inl e ↦ rw e (length-split ws (sum ws) total total)
  | inr e ↦ rw e (length-replicate (length ws) 0)
]

length-step_weights : (weights : ℕ → ℕ) (n : ℕ) → length (step_weights weights n) ≡ n
unfolding calculate_combo_reward
length-step_weights weights zero = refl
length-step_weights weights (suc n) = ap suc (length-step_weights (λ i. weights (suc i)) n)

sum-steps :
    (weights : ℕ → ℕ) (n total : ℕ) → 0 < n → sum (breakdown (step_weights weights n) total) ≡ total
unfolding calculate_combo_reward
sum-steps weights zero total h = ground arith
sum-steps weights (suc n) total h =
    sum-breakdown (weights zero) (step_weights (λ i. weights (suc i)) n) total

-- No coin of a combo's reward is lost or made up by rounding: for a combo of at least one gift, the
-- steps shown to the players, at most ten and one for each gift, add up to the reward that is paid,
-- whatever the random numbers are.
pub breakdown_exact :
    (c : Combo) (rand : ℕ) (weights : ℕ → ℕ)
    → 0 < c.combo_count
    → let r = calculate_combo_reward c rand weights in
      (sum r.breakdown_array ≡ r.total_reward) × (length r.breakdown_array ≡ min 10 c.combo_count)
unfolding calculate_combo_reward
breakdown_exact c rand weights h =
    let n = min 10 c.combo_count in
    (
      sum-steps weights n (calculate_combo_reward c rand weights).total_reward (omega arith),
      length-breakdown (step_weights weights n) (calculate_combo_reward c rand weights).total_reward
          ∙ length-step_weights weights n,
    )
