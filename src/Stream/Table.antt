-- ===== src/Stream/Table.antt =====
-- The rows of `liveStream` and their table, as src/routes/service/serviceLive.js uses them.
use live_server.Common.{
  ℕ, ◌≡◌, refl, Bool, false, ◌&&◌, Option, none, some, List, ◌==◌, if◌then◌else◌,
}
use live_server.Common.Store.{Store}

-- A row of `liveStream`; texts are lists of characters.
pub record Row : Type 0 where
  pub id : ℕ
  pub stream_id : ℕ
  pub user_id : ℕ
  pub playback_id : Option ℕ
  pub is_live : Bool
  pub started_at : Option ℕ
  pub created_at : Option ℕ
  pub ended_at : Option ℕ
  pub effective_duration : ℕ
  pub end_reason : Option (List ℕ)

-- The `data` of the two updates: the claim, and the update by id that follows it.
abbrev pub claimed : ℕ → Row → Row
claimed at r = record r { is_live = false; ended_at = some at }

pub record EndPatch : Type 0 where
  pub ended_at : ℕ
  pub effective_duration : ℕ
  pub end_reason : List ℕ

abbrev pub finished : EndPatch → Row → Row
finished p r = record r {
  is_live = false;
  ended_at = some p.ended_at;
  effective_duration = p.effective_duration;
  end_reason = some p.end_reason;
}

abbrev pub live : Option Row → Bool
live none = false
live (some r) = r.is_live

abbrev pub option_claimed : ℕ → Option Row → Option Row
option_claimed at none = none
option_claimed at (some r) = some (claimed at r)

abbrev pub option_finished : EndPatch → Option Row → Option Row
option_finished p none = none
option_finished p (some r) = some (finished p r)

-- The table, which Prisma and the database implement: `find_first` by the id or the stream id,
-- `find_unique` by the id, `claim` is the `updateMany` where the row is live, with its count, and
-- `update` the update by id. One statement is atomic.
pub record StreamTable : Type 1 where
  pub State : Type 0
  pub find_first : State → ℕ → Option Row
  pub find_unique : State → ℕ → Option Row
  pub claim : State → ℕ → ℕ → State × ℕ
  pub update : State → ℕ → EndPatch → State
  pub claim_count :
      (t : State) (id at : ℕ) → (claim t id at).1 ≡ (if live (find_unique t id) then 1 else 0)
  pub find-claim :
      (t : State) (id at j : ℕ)
      → find_unique (claim t id at).0 j ≡ (
          if (j == id) && live (find_unique t id)
          then option_claimed at (find_unique t id)
          else find_unique t j)
  pub find-update :
      (t : State) (id : ℕ) (p : EndPatch) (j : ℕ)
      → find_unique (update t id p) j
        ≡ (if j == id then option_finished p (find_unique t id) else find_unique t j)

-- A store of rows under their ids, which are their stream ids too, as go-live makes them.
abbrev pub store_streams : StreamTable
store_streams = record {
  State = Store Row;
  find_first = λ t k. t k;
  find_unique = λ t k. t k;
  claim = λ t id at. (
    (λ j. if (j == id) && live (t id) then option_claimed at (t id) else t j),
    if live (t id) then 1 else 0,
  );
  update = λ t id p j. if j == id then option_finished p (t id) else t j;
  claim_count = λ t id at. refl;
  find-claim = λ t id at j. refl;
  find-update = λ t id p j. refl;
}
