-- ===== src/Live/HostStatus.antt =====
-- `planMarkerRepair` of src/services/liveHostStatus.service.js: markers of live hosts in Redis against the
-- live streams in the database. A pair is a user and a stream; rows without an id are left out.
pub mod TwoTicks
use live_server.Common.{
  ℕ, Bool, true, false, ◌&&◌, ◌||◌, not, Option, none, some, List, [], ◌∷◌, ◌++◌, ◌==◌,
  if◌then◌else◌, is_some,
}

pub record Pair : Type 0 where
  pub user_id : ℕ
  pub stream_id : ℕ

abbrev pub pair_eq : Pair → Pair → Bool
pair_eq a b = a.user_id == b.user_id && a.stream_id == b.stream_id

abbrev pub has_pair : List Pair → Pair → Bool
has_pair [] p = false
has_pair (q ∷ qs) p = if pair_eq q p then true else has_pair qs p

abbrev pub has_user : List Pair → ℕ → Bool
has_user [] u = false
has_user (q ∷ qs) u = if q.user_id == u then true else has_user qs u

-- A repair that a tick proposes: `del|user|stream` or `set|user|stream`.
pub data Repair : Type 0 where
  del_marker set_marker : Pair → Repair

abbrev repair_eq : Repair → Repair → Bool
repair_eq (del_marker a) (del_marker b) = pair_eq a b
repair_eq (set_marker a) (set_marker b) = pair_eq a b
repair_eq (del_marker a) (set_marker b) = false
repair_eq (set_marker a) (del_marker b) = false

abbrev pub has_repair : List Repair → Repair → Bool
has_repair [] p = false
has_repair (q ∷ qs) p = if repair_eq q p then true else has_repair qs p

pub record Plan : Type 0 where
  pub del : List Pair
  pub set : List Pair
  pub touch : List ℕ
  pub suspects : List Repair

-- The streams of the first row of each live user, in the order of the rows; `seen` are the rows before.
first_rows : List Pair → List Pair → List Pair
first_rows seen [] = []
first_rows seen (p ∷ ps) =
    let rest = first_rows (p ∷ seen) ps in if has_user seen p.user_id then rest else p ∷ rest

abbrev with_touch : ℕ → Plan → Plan
with_touch u p = record p { touch = u ∷ p.touch }

abbrev with_del : Bool → Pair → Plan → Plan
with_del twice m p = record p {
  suspects = del_marker m ∷ p.suspects;
  del = if twice then m ∷ p.del else p.del;
}

abbrev with_set : Bool → Pair → Plan → Plan
with_set twice m p = record p {
  suspects = set_marker m ∷ p.suspects;
  set = if twice then m ∷ p.set else p.set;
}

-- The second loop.
plan_sets : List Pair → List Pair → List Repair → Plan
plan_sets markers [] suspects = record { del = []; set = []; touch = []; suspects = [] }
plan_sets markers (row ∷ rows) suspects =
    let rest = plan_sets markers rows suspects in
    if has_user markers row.user_id
    then rest
    else with_set (has_repair suspects (set_marker row)) row rest

-- The first loop, then the second.
plan_dels : List Pair → List Pair → List Repair → Plan → Plan
plan_dels [] live suspects last = last
plan_dels (m ∷ ms) live suspects last =
    let rest = plan_dels ms live suspects last in
    if has_pair live m
    then with_touch m.user_id rest
    else with_del (has_repair suspects (del_marker m)) m rest

unfoldable pub plan_marker_repair : List Pair → List Pair → List Repair → Plan
unfolding first_rows plan_sets plan_dels
plan_marker_repair markers live suspects =
    plan_dels markers live suspects (plan_sets markers (first_rows [] live) suspects)
