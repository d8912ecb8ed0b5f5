-- ===== src/Live/HostStatus/TwoTicks.antt =====
-- On `planMarkerRepair` of src/services/liveHostStatus.service.js. Repairs over two ticks.
use live_server.Common.{
  ◌≡◌, sym, ◌∙◌, refl, true, false, List, [], ◌∷◌, arith, All, All-imp, Bool-cases, inl, inr,
}
use live_server.Live.HostStatus.{
  Pair, pair_eq, has_pair, has_user, Repair, del_marker, set_marker, has_repair, Plan,
  plan_marker_repair, plan_dels, plan_sets, first_rows,
}

-- A marker of a stream that is not live.
abbrev pub Stale : List Pair → List Pair → Pair → Type 0
Stale markers live p = (has_pair markers p ≡ true) × (has_pair live p ≡ false)

-- A stream that is live while its host has no marker.
abbrev pub Unmarked : List Pair → List Pair → Pair → Type 0
Unmarked markers live p = (has_pair live p ≡ true) × (has_user markers p.user_id ≡ false)

has_pair-eq : (ps : List Pair) (p q : Pair) → pair_eq p q ≡ true → has_pair ps p ≡ has_pair ps q
has_pair-eq [] p q e = refl
has_pair-eq (x ∷ xs) p q e = ground (arith, has_pair-eq xs p q e)

suspected_del :
    (ms live : List Pair) (old : List Repair) (last : Plan) (p : Pair)
    → has_repair last.suspects (del_marker p) ≡ false
    → has_repair (plan_dels ms live old last).suspects (del_marker p) ≡ true
    → Stale ms live p
unfolding plan_marker_repair
suspected_del [] live old last p n h = ground arith
suspected_del (m ∷ ms) live old last p n h =
    elim (Bool-cases (has_repair (plan_dels ms live old last).suspects (del_marker p))) [
      | inl e ↦ ground (arith, suspected_del ms live old last p n e)
      | inr e ↦ ground (arith, has_pair-eq live m p)
    ]

no_suspected_del :
    (markers rows : List Pair) (old : List Repair) (p : Pair)
    → has_repair (plan_sets markers rows old).suspects (del_marker p) ≡ false
unfolding plan_marker_repair
no_suspected_del markers [] old p = refl
no_suspected_del markers (row ∷ rows) old p = ground (arith, no_suspected_del markers rows old p)

no_dels : (markers rows : List Pair) (old : List Repair) → (plan_sets markers rows old).del ≡ []
unfolding plan_marker_repair
no_dels markers [] old = refl
no_dels markers (row ∷ rows) old = ground (arith, no_dels markers rows old)

repeated_dels :
    (ms live : List Pair) (old : List Repair) (last : Plan)
    → last.del ≡ []
    → All
        (λ p. (has_repair old (del_marker p) ≡ true) × (has_pair live p ≡ false))
        (plan_dels ms live old last).del
unfolding plan_marker_repair
repeated_dels [] live old last e = rw e tt
repeated_dels (m ∷ ms) live old last e =
    let rest = repeated_dels ms live old last e in
    elim (Bool-cases (has_pair live m)) [
      | inl l ↦ rw l rest
      | inr l ↦ elim (Bool-cases (has_repair old (del_marker m))) [
        | inl t ↦ rw l (rw t ((t, l), rest))
        | inr t ↦ rw l (rw t rest)
      ]
    ]

-- No marker is deleted on the word of one tick: a marker that a tick deletes was there and stale
-- at the tick before, and its stream is still not live.
pub deletes_after_two_ticks :
    (markers live markers' live' : List Pair) (old : List Repair)
    → let before = plan_marker_repair markers live old in
      All
        (λ p. Stale markers live p × (has_pair live' p ≡ false))
        (plan_marker_repair markers' live' before.suspects).del
unfolding plan_marker_repair
deletes_after_two_ticks markers live markers' live' old =
    let sets = plan_sets markers (first_rows [] live) old in
    let before = plan_marker_repair markers live old in
    let sets' = plan_sets markers' (first_rows [] live') before.suspects in
    All-imp (plan_marker_repair markers' live' before.suspects).del
      (λ p h. (
        suspected_del markers live old sets p (no_suspected_del markers (first_rows [] live) old p)
            h.0,
        h.1,
      ))
      (repeated_dels markers' live' before.suspects sets'
        (no_dels markers' (first_rows [] live') before.suspects))

dels_keep_sets :
    (ms live : List Pair) (old : List Repair) (last : Plan)
    → (plan_dels ms live old last).set ≡ last.set
unfolding plan_marker_repair
dels_keep_sets [] live old last = refl
dels_keep_sets (m ∷ ms) live old last = ground (arith, dels_keep_sets ms live old last)

dels_keep_suspects :
    (ms live : List Pair) (old : List Repair) (last : Plan) (p : Pair)
    → has_repair (plan_dels ms live old last).suspects (set_marker p)
      ≡ has_repair last.suspects (set_marker p)
unfolding plan_marker_repair
dels_keep_suspects [] live old last p = refl
dels_keep_suspects (m ∷ ms) live old last p = ground (arith, dels_keep_suspects ms live old last p)

first_rows_live :
    (seen rows : List Pair) (p : Pair)
    → has_pair (first_rows seen rows) p ≡ true
    → has_pair rows p ≡ true
unfolding plan_marker_repair
first_rows_live seen [] p h = h
first_rows_live seen (x ∷ xs) p h = elim (Bool-cases (has_pair (first_rows (x ∷ seen) xs) p)) [
  | inl e ↦ ground (arith, first_rows_live (x ∷ seen) xs p e)
  | inr e ↦ ground arith
]

has_user-eq :
    (ps : List Pair) (p q : Pair)
    → pair_eq p q ≡ true
    → has_user ps p.user_id ≡ has_user ps q.user_id
has_user-eq [] p q e = refl
has_user-eq (x ∷ xs) p q e = ground (arith, has_user-eq xs p q e)

suspected_set :
    (markers rows : List Pair) (old : List Repair) (p : Pair)
    → has_repair (plan_sets markers rows old).suspects (set_marker p) ≡ true
    → (has_pair rows p ≡ true) × (has_user markers p.user_id ≡ false)
unfolding plan_marker_repair
suspected_set markers [] old p h = ground arith
suspected_set markers (row ∷ rows) old p h =
    elim (Bool-cases (has_repair (plan_sets markers rows old).suspects (set_marker p))) [
      | inl e ↦ ground (arith, suspected_set markers rows old p e)
      | inr e ↦ ground (arith, has_user-eq markers row p)
    ]

repeated_sets :
    (markers rows : List Pair) (old : List Repair)
    → All
        (λ p. (has_repair old (set_marker p) ≡ true) × (has_user markers p.user_id ≡ false))
        (plan_sets markers rows old).set
unfolding plan_marker_repair
repeated_sets markers [] old = tt
repeated_sets markers (row ∷ rows) old =
    let rest = repeated_sets markers rows old in
    elim (Bool-cases (has_user markers row.user_id)) [
      | inl l ↦ rw l rest
      | inr l ↦ elim (Bool-cases (has_repair old (set_marker row))) [
        | inl t ↦ rw l (rw t ((t, l), rest))
        | inr t ↦ rw l (rw t rest)
      ]
    ]

-- No marker is restored on the word of one tick: a marker that a tick sets was missing at the tick
-- before too, when its stream was live.
pub restores_after_two_ticks :
    (markers live markers' live' : List Pair) (old : List Repair)
    → let before = plan_marker_repair markers live old in
      All
        (λ p. Unmarked markers live p × (has_user markers' p.user_id ≡ false))
        (plan_marker_repair markers' live' before.suspects).set
unfolding plan_marker_repair
restores_after_two_ticks markers live markers' live' old =
    let rows = first_rows [] live in
    let sets = plan_sets markers rows old in
    let before = plan_marker_repair markers live old in
    let sets' = plan_sets markers' (first_rows [] live') before.suspects in
    rw (dels_keep_sets markers' live' before.suspects sets') (
      All-imp sets'.set
        (λ p h.
          let (row, free) =
            suspected_set markers rows old p
              (sym (dels_keep_suspects markers live old sets p) ∙ h.0) in
          ((first_rows_live [] live p row, free), h.1))
        (repeated_sets markers' (first_rows [] live') before.suspects))
