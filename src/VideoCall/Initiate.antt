-- ===== src/VideoCall/Initiate.antt =====
-- `initiateCallUnlocked` of src/modules/videoCall/service.js. What the database, the caches and the wallet
-- answer is an argument.
pub mod Allowed
use live_server.Common.{
  ℕ, ◌+◌, ◌-◌, Bool, true, false, ◌&&◌, not, Option, none, some, List, [], ◌∷◌, ◌++◌, ◌==◌, ltb,
  leb, if◌then◌else◌, or_else, is_some,
}
use live_server.Common.Int.{ℤ, pos, ltb_ℤ}
use live_server.VideoCall.Session.{Session, Status, ringing, active, status_eq}

pub record Settings : Type 0 where
  pub accept_video_calls : Bool
  pub block_lv5 : Bool
  pub block_lv10 : Bool
  pub price_per_min : ℕ

-- The answers, in the order of the questions. `creator_busy` is asked after a stale session of the caller
-- was ended; a heartbeat is the last ping of an ACTIVE session.
pub record Answers : Type 0 where
  pub caller_frozen : Bool
  pub creator_exists : Bool
  pub settings : Option Settings
  pub blocked : Bool
  pub wealth_level : Option ℕ
  pub coin_rate : ℕ
  pub caller_coins : ℤ
  pub caller_busy : Option Session
  pub caller_busy_ping : Option ℕ
  pub creator_busy : Option Session
  pub creator_busy_ping : Option ℕ
  pub now : ℕ

pub data InitiateError : Type 0 where
  coins_frozen self_call receiver_not_found calls_not_enabled not_accepting blocked_pair :
      InitiateError
  below_level_10 below_level_5 insufficient_balance already_in_call receiver_busy : InitiateError

pub data Request : Type 0 where
  end_stale : ℕ → ℕ → Request
  emit_user_busy : ℕ → ℕ → Request
  -- a RINGING session of caller and creator at a price
  create_session : ℕ → ℕ → ℕ → Request
  emit_incoming : ℕ → ℕ → Request

-- The error, if there is one, and what was asked of the rest of the system, in order.
pub record Initiated : Type 0 where
  pub error : Option InitiateError
  pub requests : List Request

-- A row that `findFirst` found is RINGING or ACTIVE.
unfoldable pub is_stale : Session → Option ℕ → ℕ → Bool
is_stale s ping now =
    if status_eq s.status ringing
    then ltb 45000 (now - s.started_at)
    else if status_eq s.status active
    then elim ping [ none ↦ true | some p ↦ ltb 30000 (now - p) ]
    else false

abbrev before : List Request → Initiated → Initiated
before rs i = record i { requests = rs ++ i.requests }

abbrev fails : InitiateError → Initiated
fails e = record { error = some e; requests = [] }

-- The checks before the calls in progress are looked at.
level_error : Settings → ℕ → Option InitiateError
level_error s level =
    if s.block_lv10 && leb level 10
    then some below_level_10
    else if s.block_lv5 && leb level 5
    then some below_level_5
    else none

settings_error : Answers → Option Settings → Option InitiateError
unfolding level_error
settings_error a none = some calls_not_enabled
settings_error a (some s) =
    if not s.accept_video_calls
    then some not_accepting
    else if a.blocked
    then some blocked_pair
    else elim (level_error s (or_else a.wealth_level 1)) [
      | some e ↦ some e
      | none ↦ if ltb_ℤ a.caller_coins (pos a.coin_rate) then some insufficient_balance else none
    ]

first_error : Answers → ℕ → ℕ → Option InitiateError
unfolding settings_error
first_error a caller creator =
    if a.caller_frozen
    then some coins_frozen
    else if caller == creator
    then some self_call
    else if not a.creator_exists
    then some receiver_not_found
    else settings_error a a.settings

abbrev price : Option Settings → ℕ
price none = 0
price (some s) = s.price_per_min

ring : Answers → ℕ → ℕ → Initiated
ring a caller creator = record {
  error = none;
  requests = create_session caller creator (price a.settings) ∷ emit_incoming creator caller ∷ [];
}

check_creator : Answers → ℕ → ℕ → Option Session → Initiated
unfolding ring
check_creator a caller creator none = ring a caller creator
check_creator a caller creator (some s) =
    if is_stale s a.creator_busy_ping a.now
    then before (end_stale s.id s.caller_id ∷ []) (ring a caller creator)
    else before (emit_user_busy caller creator ∷ []) (fails receiver_busy)

check_caller : Answers → ℕ → ℕ → Option Session → Initiated
unfolding check_creator
check_caller a caller creator none = check_creator a caller creator a.creator_busy
check_caller a caller creator (some s) =
    if is_stale s a.caller_busy_ping a.now
    then before (end_stale s.id s.caller_id ∷ []) (check_creator a caller creator a.creator_busy)
    else fails already_in_call

unfoldable pub initiate_call_unlocked : Answers → ℕ → ℕ → Initiated
unfolding first_error check_caller
initiate_call_unlocked a caller creator =
    let checked = check_caller a caller creator a.caller_busy in
    elim (first_error a caller creator) [ some e ↦ fails e | none ↦ checked ]
