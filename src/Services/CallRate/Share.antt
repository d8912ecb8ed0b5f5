-- ===== src/Services/CallRate/Share.antt =====
-- On src/services/callRate.service.js. The share that is in force, however the stores answer.
use live_server.Common.{ℕ, ◌≤◌, ◌≡◌, Option, none, some, List, All, arith}
use live_server.Services.ConfigCache.{Call, no_memo, get_all}
use live_server.Services.ConfigCache.Answers.{get_all_ok}
use live_server.Services.CallRate.{
  ShareRow, pick, default_video_call_host_share_bp, if_valid, number_of,
}

abbrev pub InRange : ℕ → Type 0
InRange bp = (1000 ≤ bp) × (bp ≤ 10000)

if_valid-InRange : (o : Option ℕ) (v : ℕ) → if_valid o ≡ some v → InRange v
if_valid-InRange none v e = cc
if_valid-InRange (some w) v e = ground arith

pick-InRange : (s : Option ShareRow) (v : ℕ) → pick s ≡ some v → InRange v
unfolding pick
pick-InRange none v e = cc
pick-InRange (some src) v e = if_valid-InRange (number_of src.camel src.snake) v e

-- In any sequence of calls, with stores that fail, have no row, or hold nonsense, every share that is
-- used lies between 10% and 100%.
pub shares-InRange :
    (cs : List (Call ShareRow))
    → All InRange (get_all pick default_video_call_host_share_bp no_memo cs).0
shares-InRange = get_all_ok pick default_video_call_host_share_bp InRange pick-InRange (omega arith)
