-- ===== src/Services/ConfigCache.antt =====
-- The memoised read that callRate.service.js and luckyShares.service.js share, line for line: a value
-- kept for 30 s, then the Redis cache, then the database row, then a default. What the two stores
-- answer is an argument.
pub mod Answers
use live_server.Common.{
  ℕ, ◌+◌, Bool, Option, none, some, List, [], ◌∷◌, ltb, if◌then◌else◌, or_else,
}

-- A read that threw, or what it found (`none` is a missing key or row).
pub data Read (S : Type 0) : Type 0 where
  failed : Read S
  answered : Option S → Read S

pub record Memo (V : Type 0) : Type 0 where
  pub at : ℕ
  pub value : Option V

-- One call: the time, whether Redis is connected, and what the stores would answer.
pub record Call (S : Type 0) : Type 0 where
  pub now : ℕ
  pub is_open : Bool
  pub redis : Read S
  pub db : Read S

abbrev pub memo_ms : ℕ
memo_ms = 30000

abbrev pub no_memo : {V : Type 0} → Memo V
no_memo = record { at = 0; value = none }

module _ {S V : Type 0} (pick : Option S → Option V) (default : V) where
  abbrev pub picked : Read S → Option V
  picked failed = none
  picked (answered o) = pick o

  abbrev pub or_picked : Option V → Read S → Option V
  or_picked none db = picked db
  or_picked (some v) db = some v

  abbrev pub from_stores : Call S → V
  from_stores c = or_else (or_picked (if c.is_open then picked c.redis else none) c.db) default

  abbrev memo_or : Option V → Bool → V × Memo V → Memo V → V × Memo V
  memo_or none fresh new memo = new
  memo_or (some v) fresh new memo = if fresh then (v, memo) else new

  -- The value, and the memo afterwards.
  unfoldable pub get : Memo V → Call S → V × Memo V
  get memo c =
      let v = from_stores c in
      memo_or memo.value (ltb c.now (memo.at + memo_ms)) (v, record { at = c.now; value = some v })
        memo

  -- The calls of one process in order: their answers, and the memo at the end.
  unfoldable pub get_all : Memo V → List (Call S) → List V × Memo V
  get_all memo [] = ([], memo)
  get_all memo (c ∷ cs) =
      let (v, memo') = get memo c in let (vs, last) = get_all memo' cs in (v ∷ vs, last)
