-- ===== src/Examples/Gifts.antt =====
-- Gifts in live streams at concrete inputs.
use live_server.Common.{refl, true, false, none, some, [], ◌∷◌, All}
use live_server.Common.Store.{Store₂, empty_store}
use live_server.LuckyGift.Send.{
  Gift, Request, Draw, LedgerReply, replies, Services, Payload, legacy, result_payload,
}
use live_server.Stream.Gifts.{
  World, GiftRequest, LiveStream, Privacy, GiftReply, Shown, ShownWin, alias, send_stream_gift,
  emits,
}
use live_server.Stream.Gifts
use live_server.Stream.Gifts.Hidden.{Hides, hidden_sender}

abbrev empty : Store₂ Payload
empty s = empty_store

abbrev lucky_gift : Gift
lucky_gift = record { id = 9; coin_cost = 10; is_active = true; is_lucky = true }

abbrev reply : LedgerReply
reply = record {
  transaction_id = 500;
  final_balance_coins = 80;
  previous_level = 2;
  new_level = 3;
  host_points = 12;
  engine = legacy;
  reward_coins = none;
  category = none;
  breakdown = none;
}

abbrev draw : Draw
draw = record { total_reward = 30; category = 1; breakdown = 30 ∷ [] }

abbrev services : Services
services = record {
  gift_of = λ i. some lucky_gift;
  draw = λ count. draw;
  ledger = λ call. replies reply;
}

abbrev request : Request
request = record {
  sender_id = 7;
  receiver_id = some 1;
  stream_id = some 100;
  gift_id = 9;
  combo_count = 2;
  client_tx_id = some 77;
  pre_fetched_gift = none;
  gift_transaction_id = 400;
}

abbrev payload : Payload
payload = result_payload request lucky_gift 2 reply draw

-- User 7 is hidden, under the alias 70 in the stream of user 1.
abbrev world : World
world = record {
  frozen = false;
  stream = some (record { stream_id = 100; user_id = 1; ended_at = none });
  privacy = λ u. record { public_id = some u; name = u; is_stealth = true };
  session_alias = some 70;
  gift_ledger = λ call. Gifts.replies (record {
    balance_after_coins = 80;
    balance_after_points = 6;
    previous_level = 2;
    new_level = 2;
  });
  lucky = services;
}

abbrev gift_request : GiftRequest
gift_request = record {
  sender_id = 7;
  gift_id = 9;
  target_user_id = none;
  count = 2;
  client_tx_id = none;
  gift_transaction_id = 401;
}

hidden_sender_example : All Hides (emits true (send_stream_gift world empty gift_request).1)
hidden_sender_example = hidden_sender world gift_request refl empty true
