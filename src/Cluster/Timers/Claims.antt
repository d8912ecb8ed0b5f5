-- ===== src/Cluster/Timers/Claims.antt =====
-- On the durable timers of src/services/cluster.service.js. How often a deadline is run.
use live_server.Common.{
  ℕ, zero, suc, ◌+◌, ◌≤◌, ◌≡◌, ◌≢◌, refl, sym, ap, ◌∙◌, Option, none, some, List, [], ◌∷◌, ◌==◌,
  if◌then◌else◌, is_some, arith, Option-cases, inl, inr,
}
use live_server.Cluster.Timers.Deadlines.{DeadlineStore}
use live_server.Cluster.Timers.{
  Claim, Run, World, Event, schedules, cancels, timer_fires, claim, sweeps, goes_on, stops, pluck,
  happens, happen, sweep_grace_ms,
}

abbrev of_member : ℕ → ℕ → ℕ
of_member m k = if m == k then 1 else 0

abbrev claims_of : ℕ → List Claim → ℕ
claims_of m [] = 0
claims_of m (c ∷ cs) = of_member m c.member + claims_of m cs

-- How often the handler ran for a member.
abbrev pub runs_of : ℕ → List Run → ℕ
runs_of m [] = 0
runs_of m (r ∷ rs) = of_member m r.member + runs_of m rs

claims_of-pluck :
    (m k : ℕ) (cs : List Claim) (c : Claim) (others : List Claim)
    → pluck k cs ≡ some (c, others)
    → claims_of m cs ≡ of_member m c.member + claims_of m others
claims_of-pluck m zero [] c others h = cc
claims_of-pluck m (suc k) [] c others h = cc
claims_of-pluck m zero (x ∷ xs) c others h = ground arith
claims_of-pluck m (suc k) (x ∷ xs) c others h = elim (Option-cases (pluck k xs)) [
  | inl e ↦ ground arith
  | inr ((c', others'), e) ↦ ground (arith, claims_of-pluck m k xs c' others' e)
]

module _ (d : DeadlineStore) where
  open d use {
    State, z_score, z_rem, z_rem_count, z_score-z_rem, z_score-add, z_score-remove, z_score-h_del,
    h_get, h_get-z_rem, h_get-add,
  }

  abbrev schedules_in : ℕ → Event d → ℕ
  schedules_in m (schedules node member at payload) = of_member m member
  schedules_in m (cancels node member) = 0
  schedules_in m (timer_fires node member) = 0
  schedules_in m (sweeps node member now) = 0
  schedules_in m (goes_on k) = 0
  schedules_in m (stops node) = 0

  abbrev pub schedules_of : ℕ → List (Event d) → ℕ
  schedules_of m [] = 0
  schedules_of m (e ∷ es) = schedules_in m e + schedules_of m es

  abbrev pending : ℕ → World d → ℕ
  pending m w = if is_some (z_score w.shared m) then 1 else 0

  -- Runs, claims in flight and the pending deadline of a member.
  abbrev weight : ℕ → World d → ℕ
  weight m w = runs_of m w.runs + claims_of m w.claims + pending m w

  weight-claim :
      (m : ℕ) (w : World d) (node member : ℕ) (p : Option ℕ)
      → weight m (claim d w node member p) ≤ weight m w
  unfolding happens
  weight-claim m w node member p =
      ground (arith, z_rem_count w.shared member, z_score-z_rem w.shared member m)

  weight-happens :
      (m : ℕ) (w : World d) (e : Event d) → weight m (happens d w e) ≤ weight m w + schedules_in m e
  unfolding happens
  weight-happens m w (schedules node member at payload) =
      ground (arith, z_score-add w.shared member at payload m)
  weight-happens m w (cancels node member) = ground (arith, z_score-remove w.shared member m)
  weight-happens m w (timer_fires node member) = elim (Option-cases (w.local_timers node member)) [
    | inl e ↦ rw e (omega arith)
    | inr (p, e) ↦ rw e (omega (arith, weight-claim m w node member (some p)))
  ]
  weight-happens m w (sweeps node member now) = ground (arith, weight-claim m w node member none)
  weight-happens m w (goes_on k) = elim (Option-cases (pluck k w.claims)) [
    | inl e ↦ rw e (omega arith)
    | inr ((c, others), e) ↦
        rw e ground
          (arith, z_score-h_del w.shared c.member m, claims_of-pluck m k w.claims c others e)
  ]
  weight-happens m w (stops node) = omega arith

  weight-happen :
      (m : ℕ) (w : World d) (es : List (Event d))
      → weight m (happen d w es) ≤ weight m w + schedules_of m es
  weight-happen m w [] = omega arith
  weight-happen m w (e ∷ es) =
      omega (arith, weight-happens m w e, weight-happen m (happens d w e) es)

  -- In any order of requests, timers, sweeps and stops of any number of nodes, with Redis open
  -- throughout, the handler runs for a member at most as often as the member was scheduled since a
  -- time when nothing was pending, claimed or run, so no scheduled deadline is fired twice.
  pub runs_bounded :
      (m : ℕ) (w : World d) (es : List (Event d))
      → z_score w.shared m ≡ none
      → w.claims ≡ []
      → w.runs ≡ []
      → runs_of m (happen d w es).runs ≤ schedules_of m es
  runs_bounded m w es h c r =
      let empty : weight m w ≡ 0 = rw h (rw c (rw r refl)) in
      omega (arith, weight-happen m w es, empty)

  -- The sweep of an overdue deadline, up to the read of its payload, and the run that follows.
  sweep_claims :
      (w : World d) (node m at now : ℕ)
      → z_score w.shared m ≡ some at
      → w.local_timers node m ≡ none
      → at + sweep_grace_ms ≤ now
      → (h_get w.shared m ≡ h_get (happens d w (sweeps node m now)).shared m)
        × ((happens d w (sweeps node m now)).claims
            ≡ record { member = m; local_payload = none } ∷ w.claims)
        × ((happens d w (sweeps node m now)).runs ≡ w.runs)
  unfolding happens
  sweep_claims w node m at now z l h =
      ground (arith, z_rem_count w.shared m, h_get-z_rem w.shared m m)

  first_goes_on :
      (w : World d) (m payload : ℕ) (cs : List Claim)
      → h_get w.shared m ≡ some payload
      → w.claims ≡ record { member = m; local_payload = none } ∷ cs
      → (happens d w (goes_on 0)).runs ≡ record { member = m; payload = some payload } ∷ w.runs
  unfolding happens
  first_goes_on w m payload cs g c = rw c (rw g refl)

  after_stop :
      (w : World d) (node other m at payload : ℕ)
      → node ≢ other
      → w.local_timers other m ≡ none
      → let w' = happens d (happens d w (schedules node m at payload)) (stops node) in
        (z_score w'.shared m ≡ some at)
        × (w'.local_timers other m ≡ none)
        × (h_get w'.shared m ≡ some payload)
        × (w'.claims ≡ w.claims)
        × (w'.runs ≡ w.runs)
  unfolding happens
  after_stop w node other m at payload n l =
      ground (arith, z_score-add w.shared m at payload m, h_get-add w.shared m at payload m)

  -- A deadline survives the node that scheduled it: after that node stops, the sweep of any other node,
  -- from 1.5 s after the deadline on, claims it, and its handler is run with the payload that was
  -- scheduled.
  pub stopped_node_replaced :
      (w : World d) (node other m at payload now : ℕ)
      → node ≢ other
      → w.local_timers other m ≡ none
      → w.claims ≡ []
      → at + sweep_grace_ms ≤ now
      → (happen d w
          (schedules node m at payload ∷ stops node ∷ sweeps other m now ∷ goes_on 0 ∷ [])).runs
        ≡ record { member = m; payload = some payload } ∷ w.runs
  stopped_node_replaced w node other m at payload now n l c h =
      let w' = happens d (happens d w (schedules node m at payload)) (stops node) in
      let (due, free, stored, same_claims, same_runs) = after_stop w node other m at payload n l in
      let (kept, claimed, runs) = sweep_claims w' other m at now due free h in
      first_goes_on (happens d w' (sweeps other m now)) m payload [] (sym kept ∙ stored)
        (claimed ∙ ap (λ cs. record { member = m; local_payload = none } ∷ cs) (same_claims ∙ c))
      ∙ ap (λ rs. record { member = m; payload = some payload } ∷ rs) (runs ∙ same_runs)
