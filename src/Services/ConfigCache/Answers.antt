-- ===== src/Services/ConfigCache/Answers.antt =====
-- On src/services/callRate.service.js and luckyShares.service.js. What holds of every answer,
-- whatever the stores say and however often they fail.
use live_server.Common.{
  ℕ, ◌+◌, ◌≡◌, refl, Bool, true, false, Option, none, some, List, [], ◌∷◌, ltb, if◌then◌else◌,
  or_else, All, Bool-cases, inl, inr,
}
use live_server.Services.ConfigCache.{
  Read, failed, answered, Memo, Call, memo_ms, no_memo, picked, or_picked, from_stores, get,
  get_all,
}

module _ {S V : Type 0} (pick : Option S → Option V) (default : V) (P : V → Type 0)
    (pick_ok : (s : Option S) (v : V) → pick s ≡ some v → P v) (default_ok : P default) where
  abbrev Holds : Option V → Type 0
  Holds none = Unit {0}
  Holds (some v) = P v

  pick-Holds : (s : Option S) (o : Option V) → pick s ≡ o → Holds o
  pick-Holds s none e = tt
  pick-Holds s (some v) e = pick_ok s v e

  picked-Holds : (r : Read S) → Holds (picked pick default r)
  picked-Holds failed = tt
  picked-Holds (answered s) = pick-Holds s (pick s) refl

  or_picked-Holds : (o : Option V) (r : Read S) → Holds o → Holds (or_picked pick default o r)
  or_picked-Holds none r h = picked-Holds r
  or_picked-Holds (some v) r h = h

  guarded-Holds : (b : Bool) (r : Read S) → Holds (if b then picked pick default r else none)
  guarded-Holds true r = picked-Holds r
  guarded-Holds false r = tt

  or_else-Holds : (o : Option V) → Holds o → P (or_else o default)
  or_else-Holds none h = default_ok
  or_else-Holds (some v) h = h

  from_stores-Holds : (c : Call S) → P (from_stores pick default c)
  from_stores-Holds c = or_else-Holds _ (or_picked-Holds _ c.db (guarded-Holds c.is_open c.redis))

  get-Holds :
      (c : Call S) (at : ℕ) (o : Option V)
      → Holds o
      → let (v, memo') = get pick default (record { at = at; value = o }) c in
        P v × Holds memo'.value
  unfolding get
  get-Holds c at none h = (from_stores-Holds c, from_stores-Holds c)
  get-Holds c at (some v) h = elim (Bool-cases (ltb c.now (at + memo_ms))) [
    | inl e ↦ rw e (h, h)
    | inr e ↦ rw e (from_stores-Holds c, from_stores-Holds c)
  ]

  get_all-Holds :
      (memo : Memo V) (cs : List (Call S))
      → Holds memo.value
      → All P (get_all pick default memo cs).0
  unfolding get_all
  get_all-Holds memo [] h = tt
  get_all-Holds memo (c ∷ cs) h =
      let (p, q) = get-Holds c memo.at memo.value h in
      (p, get_all-Holds (get pick default memo c).1 cs q)

  -- A process that starts with no memo answers only values that `pick` accepts, or the default.
  pub get_all_ok : (cs : List (Call S)) → All P (get_all pick default no_memo cs).0
  get_all_ok cs = get_all-Holds no_memo cs tt
