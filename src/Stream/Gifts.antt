-- ===== src/Stream/Gifts.antt =====
-- `sendStreamGiftService` of src/routes/service/serviceLive.js, and what the `send_gift` handler of
-- src/routes/service/socket-live-service.js shows of it in the room. Avatars, effects, the gallery and
-- the gift's picture are left out.
pub mod Hidden
use live_server.Common.{
  ℕ, ◌*◌, ◌/◌, Bool, true, false, not, ◌&&◌, Option, none, some, or_else, is_some, List, [], ◌∷◌,
  ltb, if◌then◌else◌,
}
use live_server.Common.Store.{Store, Store₂}
use live_server.LuckyGift.Send.{
  Gift, Request, clamp_count, TxKey, by_client, by_gift, Services, Payload, LuckyWin, Outcome,
  throws, sent, SocketPayload, LedgerCall, send_lucky_gift,
}
use live_server.LuckyGift.Send

-- `getUserPrivacyService`
pub record Privacy : Type 0 where
  pub public_id : Option ℕ
  pub name : ℕ
  pub is_stealth : Bool

pub record LiveStream : Type 0 where
  pub stream_id : ℕ
  pub user_id : ℕ
  pub ended_at : Option ℕ

pub record GiftRequest : Type 0 where
  pub sender_id : ℕ
  pub gift_id : ℕ
  pub target_user_id : Option ℕ
  pub count : ℕ
  pub client_tx_id : Option ℕ
  pub gift_transaction_id : ℕ

pub data Error : Type 0 where
  coins_frozen stream_not_found stream_ended gift_not_found : Error
  ledger_error : ℕ → Error
  lucky_error : Send.Error → Error

-- The `gift` call of the ledger, and its answer.
pub record GiftCall : Type 0 where
  pub sender_id : ℕ
  pub receiver_id : ℕ
  pub gift_id : ℕ
  pub quantity : ℕ
  pub idem_base : TxKey

pub record GiftReply : Type 0 where
  pub balance_after_coins : ℕ
  pub balance_after_points : ℕ
  pub previous_level : ℕ
  pub new_level : ℕ

pub data Answer : Type 0 where
  replies : GiftReply → Answer
  refuses : ℕ → Answer

-- Names that a room sees.
pub data ShownName : Type 0 where
  real alias : ℕ → ShownName
  mystery_gifter : ShownName

-- `socketPayload`, and the payload of a lucky win: what tells who sent the gift, and what it cost.
pub record Shown : Type 0 where
  pub sender_id : Option ℕ
  pub sender_public_id : Option ℕ
  pub sender_name : ShownName
  pub is_mystery : Bool
  pub receiver_id : ℕ
  pub points_awarded : ℕ
  pub count : ℕ
  pub total_cost : ℕ
  pub wealth_level : ℕ

pub record ShownWin : Type 0 where
  pub sender_id : ℕ
  pub sender_public_id : Option ℕ
  pub sender_name : ShownName
  pub reward_coins : ℕ

pub record Sent : Type 0 where
  pub transaction_id : ℕ
  pub is_lucky : Bool
  pub socket_payload : Shown
  pub lucky_win : Option ShownWin

pub data Result : Type 0 where
  fails : Error → Result
  delivers : Sent → Result

-- What the service reads and calls: the session alias of a hidden sender, users, gifts, and both ledgers.
pub record World : Type 0 where
  pub frozen : Bool
  pub stream : Option LiveStream
  pub privacy : ℕ → Privacy
  pub session_alias : Option ℕ
  pub gift_ledger : GiftCall → Answer
  pub lucky : Services

-- `(coinCost * 60n) / 100n`
abbrev pub host_points : ℕ → ℕ
host_points coin_cost = coin_cost * 60 / 100

abbrev alias_name : Option ℕ → ShownName
alias_name none = mystery_gifter
alias_name (some a) = alias a

abbrev shown_name : World → Privacy → ShownName
shown_name w p = if p.is_stealth then alias_name w.session_alias else real p.name

abbrev hidden_unless {ℓ} : {A : Type ℓ} → Bool → Option A → Option A
hidden_unless stealth v = if stealth then none else v

abbrev idem_base : GiftRequest → Option ℕ → TxKey
idem_base q none = by_gift q.gift_transaction_id
idem_base q (some client) = by_client q.sender_id client

abbrev receiver_of : GiftRequest → LiveStream → ℕ
receiver_of q s = or_else q.target_user_id s.user_id

abbrev pub gift_call : GiftRequest → LiveStream → Gift → GiftCall
gift_call q s g = record {
  sender_id = q.sender_id;
  receiver_id = receiver_of q s;
  gift_id = g.id;
  quantity = clamp_count q.count;
  idem_base = idem_base q q.client_tx_id;
}

abbrev plain_payload : World → GiftRequest → LiveStream → Gift → GiftReply → Shown
plain_payload w q s g r =
    let p = w.privacy q.sender_id in
    let cost = g.coin_cost * clamp_count q.count in
    record {
      sender_id = hidden_unless p.is_stealth (some q.sender_id);
      sender_public_id = hidden_unless p.is_stealth p.public_id;
      sender_name = shown_name w p;
      is_mystery = p.is_stealth;
      receiver_id = receiver_of q s;
      points_awarded = host_points cost;
      count = clamp_count q.count;
      total_cost = cost;
      wealth_level = if p.is_stealth then 0 else r.new_level;
    }

abbrev lucky_request : GiftRequest → LiveStream → Gift → Request
lucky_request q s g = record {
  sender_id = q.sender_id;
  receiver_id = some (receiver_of q s);
  stream_id = some s.stream_id;
  gift_id = q.gift_id;
  combo_count = clamp_count q.count;
  client_tx_id = q.client_tx_id;
  pre_fetched_gift = some g;
  gift_transaction_id = q.gift_transaction_id;
}

-- The names that are written into the lucky result; its win keeps the sender's id.
abbrev pub shown_win : World → Privacy → Option LuckyWin → Option ShownWin
shown_win w p none = none
shown_win w p (some win) = some (record {
  sender_id = win.sender_id;
  sender_public_id = hidden_unless p.is_stealth p.public_id;
  sender_name = shown_name w p;
  reward_coins = win.reward_coins;
})

abbrev lucky_payload : World → GiftRequest → LiveStream → SocketPayload → Shown
lucky_payload w q s l =
    let p = w.privacy q.sender_id in
    record {
      sender_id = hidden_unless p.is_stealth l.sender_id;
      sender_public_id = hidden_unless p.is_stealth p.public_id;
      sender_name = shown_name w p;
      is_mystery = p.is_stealth;
      receiver_id = receiver_of q s;
      points_awarded = l.points_awarded;
      count = l.count;
      total_cost = l.total_cost;
      wealth_level = if p.is_stealth then 0 else l.wealth_level;
    }

abbrev lucky_result : World → GiftRequest → LiveStream → Outcome → Result
lucky_result w q s (throws e) = fails (lucky_error e)
lucky_result w q s (sent l) = delivers (record {
  transaction_id = l.transaction_id;
  is_lucky = true;
  socket_payload = lucky_payload w q s l.socket_payload;
  lucky_win = shown_win w (w.privacy q.sender_id) l.lucky_win;
})

abbrev plain_result : World → GiftRequest → LiveStream → Gift → Answer → Result
plain_result w q s g (refuses e) = fails (ledger_error e)
plain_result w q s g (replies r) = delivers (record {
  transaction_id = q.gift_transaction_id;
  is_lucky = false;
  socket_payload = plain_payload w q s g r;
  lucky_win = none;
})

send_lucky :
    World
    → Store₂ Payload
    → GiftRequest
    → LiveStream
    → Store₂ Payload × Outcome × List LedgerCall
    → Store₂ Payload × Result × List GiftCall × List LedgerCall
send_lucky w cache q s (cache', outcome, calls) = (cache', lucky_result w q s outcome, [], calls)

send_gift_of :
    World
    → Store₂ Payload
    → GiftRequest
    → LiveStream
    → Option Gift
    → Store₂ Payload × Result × List GiftCall × List LedgerCall
send_gift_of w cache q s none = (cache, fails gift_not_found, [], [])
send_gift_of w cache q s (some g) =
    if not g.is_active
    then (cache, fails gift_not_found, [], [])
    else if g.is_lucky
    then send_lucky w cache q s (send_lucky_gift w.lucky w.frozen cache (lucky_request q s g))
    else (cache, plain_result w q s g (w.gift_ledger (gift_call q s g)), gift_call q s g ∷ [], [])

send_in :
    World
    → Store₂ Payload
    → GiftRequest
    → Option LiveStream
    → Store₂ Payload × Result × List GiftCall × List LedgerCall
send_in w cache q none = (cache, fails stream_not_found, [], [])
send_in w cache q (some s) =
    if is_some s.ended_at
    then (cache, fails stream_ended, [], [])
    else send_gift_of w cache q s (w.lucky.gift_of q.gift_id)

-- The remembered lucky sends, the result, and the calls of the two ledgers.
unfoldable pub send_stream_gift :
    World → Store₂ Payload → GiftRequest → Store₂ Payload × Result × List GiftCall × List LedgerCall
unfolding send_lucky send_gift_of send_in
send_stream_gift w cache q =
    if w.frozen then (cache, fails coins_frozen, [], []) else send_in w cache q w.stream

-- What the `send_gift` handler emits in the room.
pub data Emit : Type 0 where
  gift_sent : Shown → Emit
  lucky_gift_win : ShownWin → Emit

abbrev pub win_emit : Option ShownWin → List Emit
win_emit none = []
win_emit (some win) = lucky_gift_win win ∷ []

-- `claimed` is the claim of `withLuckyEmitOnce`, which a lucky gift needs.
unfoldable pub emits : Bool → Result → List Emit
emits claimed (fails e) = []
emits claimed (delivers s) =
    if s.is_lucky && not claimed then [] else gift_sent s.socket_payload ∷ win_emit s.lucky_win
