-- ===== src/LuckyGift/Send.antt =====
-- `sendLuckyGiftService` of src/routes/service/serviceLuckyGift.js, from the draw on. What the ledger of
-- ol-node-rest answers is a parameter; the random ids are fields of the request.
pub mod Replay
use live_server.Common.{
  ℕ, ◌*◌, min, max, Bool, true, false, ◌&&◌, not, Option, none, some, or_else, List, [], ◌∷◌, ltb,
  if◌then◌else◌,
}
use live_server.Common.Store.{Store, Store₂, put₂}

pub record Gift : Type 0 where
  pub id : ℕ
  pub coin_cost : ℕ
  pub is_active : Bool
  -- `isLuckyGift`
  pub is_lucky : Bool

pub record Request : Type 0 where
  pub sender_id : ℕ
  pub receiver_id : Option ℕ
  pub stream_id : Option ℕ
  pub gift_id : ℕ
  pub combo_count : ℕ
  pub client_tx_id : Option ℕ
  pub pre_fetched_gift : Option Gift
  -- `giftTransactionId`
  pub gift_transaction_id : ℕ

-- `Math.max(1, Math.min(1000, Number(count)))`
abbrev pub clamp_count : ℕ → ℕ
clamp_count count = max 1 (min 1000 count)

-- What the reward engines draw for a count (`Combo` and `Single`).
pub record Draw : Type 0 where
  pub total_reward : ℕ
  pub category : ℕ
  pub breakdown : List ℕ

pub data TxKey : Type 0 where
  by_client : ℕ → ℕ → TxKey
  by_gift : ℕ → TxKey

pub record LedgerCall : Type 0 where
  pub sender_id : ℕ
  pub receiver_id : Option ℕ
  pub gift_id : ℕ
  pub count : ℕ
  pub gift_transaction_id : ℕ
  pub tx_key_base : TxKey
  pub reward_coins : ℕ
  pub category : ℕ

pub data Engine : Type 0 where
  water_v1 legacy : Engine

-- The ledger's answer, with the fields that only a ledger with its own draw has.
pub record LedgerReply : Type 0 where
  pub transaction_id : ℕ
  pub final_balance_coins : ℕ
  pub previous_level : ℕ
  pub new_level : ℕ
  pub host_points : ℕ
  pub engine : Engine
  pub reward_coins : Option ℕ
  pub category : Option ℕ
  pub breakdown : Option (List ℕ)

pub data Error : Type 0 where
  coins_frozen gift_not_found not_lucky : Error
  ledger_error : ℕ → Error

pub data Answer : Type 0 where
  replies : LedgerReply → Answer
  refuses : ℕ → Answer

pub record LuckyWin : Type 0 where
  pub sender_id : ℕ
  pub receiver_id : Option ℕ
  pub reward_coins : ℕ
  pub category : ℕ
  pub breakdown : List ℕ
  pub transaction_id : Option ℕ

pub record SocketPayload : Type 0 where
  pub sender_id : Option ℕ
  pub total_cost : ℕ
  pub count : ℕ
  pub points_awarded : ℕ
  pub wealth_level : ℕ

pub record Payload : Type 0 where
  pub transaction_id : ℕ
  pub sender_id : ℕ
  pub count : ℕ
  pub total_cost : ℕ
  pub host_earning_points : ℕ
  pub total_reward_coins : ℕ
  pub breakdown : List ℕ
  pub category : ℕ
  pub sender_remaining_coins : ℕ
  pub current_level : ℕ
  pub is_level_up : Bool
  pub socket_payload : SocketPayload
  pub lucky_win : Option LuckyWin

pub data Outcome : Type 0 where
  throws : Error → Outcome
  sent : Payload → Outcome

abbrev pub use_water : Engine → Bool
use_water water_v1 = true
use_water legacy = false

-- The ledger's own draw counts where it has one, else the draw of this server.
abbrev pub settled {ℓ} : {A : Type ℓ} → Engine → Option A → A → A
settled water_v1 field local = or_else field local
settled legacy field local = local

abbrev pub lucky_win_of : Request → LedgerReply → Draw → Option LuckyWin
lucky_win_of q r d =
    let coins = settled r.engine r.reward_coins d.total_reward in
    if ltb 0 coins
    then some (record {
      sender_id = q.sender_id;
      receiver_id = q.receiver_id;
      reward_coins = coins;
      category = settled r.engine r.category d.category;
      breakdown = settled r.engine r.breakdown d.breakdown;
      transaction_id = if use_water r.engine then some r.transaction_id else none;
    })
    else none

unfoldable pub result_payload : Request → Gift → ℕ → LedgerReply → Draw → Payload
result_payload q g count r d = record {
  transaction_id = r.transaction_id;
  sender_id = q.sender_id;
  count = count;
  total_cost = g.coin_cost * count;
  host_earning_points = r.host_points;
  total_reward_coins = settled r.engine r.reward_coins d.total_reward;
  breakdown = settled r.engine r.breakdown d.breakdown;
  category = settled r.engine r.category d.category;
  sender_remaining_coins = r.final_balance_coins;
  current_level = r.new_level;
  is_level_up = ltb r.previous_level r.new_level;
  socket_payload = record {
    sender_id = some q.sender_id;
    total_cost = g.coin_cost * count;
    count = count;
    points_awarded = r.host_points;
    wealth_level = r.new_level;
  };
  lucky_win = lucky_win_of q r d;
}

-- `txKeyBase`
abbrev tx_key_base : Request → Option ℕ → TxKey
tx_key_base q none = by_gift q.gift_transaction_id
tx_key_base q (some client) = by_client q.sender_id client

abbrev pub ledger_call : Request → Gift → ℕ → Draw → LedgerCall
ledger_call q g count d = record {
  sender_id = q.sender_id;
  receiver_id = q.receiver_id;
  gift_id = g.id;
  count = count;
  gift_transaction_id = q.gift_transaction_id;
  tx_key_base = tx_key_base q q.client_tx_id;
  reward_coins = d.total_reward;
  category = d.category;
}

-- `lucky:idempotency:<sender>:<clientTxId>`, by the sender and the client's id.
abbrev remembered : Store₂ Payload → Request → Option ℕ → Option Payload
remembered cache q none = none
remembered cache q (some client) = cache q.sender_id client

abbrev remember : Store₂ Payload → Request → Option ℕ → Payload → Store₂ Payload
remember cache q none p = cache
remember cache q (some client) p = put₂ cache q.sender_id client p

-- The services that it works with: the catalog, the draw for a count, and the ledger.
pub record Services : Type 0 where
  pub gift_of : ℕ → Option Gift
  pub draw : ℕ → Draw
  pub ledger : LedgerCall → Answer

answered :
    Store₂ Payload
    → Request
    → Gift
    → Draw
    → LedgerCall
    → Answer
    → Store₂ Payload × Outcome × List LedgerCall
answered cache q g d call (refuses e) = (cache, throws (ledger_error e), call ∷ [])
answered cache q g d call (replies r) =
    let p = result_payload q g (clamp_count q.combo_count) r d in
    (remember cache q q.client_tx_id p, sent p, call ∷ [])

send_gift : Services → Store₂ Payload → Request → Gift → Store₂ Payload × Outcome × List LedgerCall
send_gift s cache q g =
    let d = s.draw (clamp_count q.combo_count) in
    let call = ledger_call q g (clamp_count q.combo_count) d in
    answered cache q g d call (s.ledger call)

-- A gift that the caller picks has to be an active lucky gift.
send_found :
    Services → Store₂ Payload → Request → Option Gift → Store₂ Payload × Outcome × List LedgerCall
send_found s cache q none = (cache, throws gift_not_found, [])
send_found s cache q (some g) =
    if not g.is_active
    then (cache, throws gift_not_found, [])
    else if not g.is_lucky
    then (cache, throws not_lucky, [])
    else send_gift s cache q g

send_fresh :
    Services → Store₂ Payload → Request → Option Gift → Store₂ Payload × Outcome × List LedgerCall
send_fresh s cache q none = send_found s cache q (s.gift_of q.gift_id)
send_fresh s cache q (some g) = send_gift s cache q g

unless_remembered :
    Services
    → Store₂ Payload
    → Request
    → Option Payload
    → Store₂ Payload × Outcome × List LedgerCall
unless_remembered s cache q (some p) = (cache, sent p, [])
unless_remembered s cache q none = send_fresh s cache q q.pre_fetched_gift

-- The calls of the ledger come with the answer. `frozen` is `checkCoinsFrozenFast`.
unfoldable pub send_lucky_gift :
    Services → Bool → Store₂ Payload → Request → Store₂ Payload × Outcome × List LedgerCall
unfolding answered send_gift send_found send_fresh unless_remembered
send_lucky_gift s frozen cache q =
    if frozen
    then (cache, throws coins_frozen, [])
    else unless_remembered s cache q (remembered cache q q.client_tx_id)
