-- ===== src/Stream/Gifts/Hidden.antt =====
-- On src/routes/service/serviceLive.js and socket-live-service.js. What a room sees of a gift.
use live_server.Common.{
  ◌≡◌, refl, Bool, true, false, not, Option, none, some, List, All, arith, if◌then◌else◌, is_some,
}
use live_server.Common.Store.{Store₂}
use live_server.LuckyGift.Send.{
  Gift, Payload, send_lucky_gift, result_payload, Outcome, sent, throws, LuckyWin, LedgerCall,
}
use live_server.Stream.Gifts.{
  World, GiftRequest, LiveStream, Result, fails, delivers, ShownWin, Emit, gift_sent,
  lucky_gift_win, emits, send_stream_gift, send_gift_of, send_in, send_lucky, lucky_result,
  plain_result, Answer, replies, refuses, GiftCall, Error, win_emit, shown_win,
}

-- An event of the room that does not tell who a hidden sender is; of a lucky win, only the public id.
abbrev pub Hides : Emit → Type 0
Hides (gift_sent p) = (p.sender_id ≡ none) × (p.sender_public_id ≡ none)
Hides (lucky_gift_win win) = win.sender_public_id ≡ none

abbrev AllHide : Result → Type 0
AllHide r = (claimed : Bool) → All Hides (emits claimed r)

fails-AllHide : (e : Error) → AllHide (fails e)
unfolding emits
fails-AllHide e claimed = tt

if-AllHide :
    (b : Bool) (x y : Store₂ Payload × Result × List GiftCall × List LedgerCall)
    → AllHide x.1
    → AllHide y.1
    → AllHide (if b then x else y).1
if-AllHide true x y h k = h
if-AllHide false x y h k = k

module _ (w : World) (q : GiftRequest) (stealth : (w.privacy q.sender_id).is_stealth ≡ true) where
  win-Hides : (o : Option LuckyWin) → All Hides (win_emit (shown_win w (w.privacy q.sender_id) o))
  win-Hides none = tt
  win-Hides (some win) = rw stealth (refl, tt)

  lucky-AllHide : (s : LiveStream) (o : Outcome) → AllHide (lucky_result w q s o)
  unfolding emits
  lucky-AllHide s (throws e) claimed = tt
  lucky-AllHide s (sent l) true = (rw stealth (refl, refl), win-Hides l.lucky_win)
  lucky-AllHide s (sent l) false = tt

  plain-AllHide : (s : LiveStream) (g : Gift) (a : Answer) → AllHide (plain_result w q s g a)
  unfolding emits
  plain-AllHide s g (refuses e) claimed = tt
  plain-AllHide s g (replies r) claimed = rw stealth ((refl, refl), tt)

  gift-AllHide :
      (cache : Store₂ Payload) (s : LiveStream) (g : Option Gift)
      → AllHide (send_gift_of w cache q s g).1
  unfolding send_gift_of send_lucky
  gift-AllHide cache s none = fails-AllHide _
  gift-AllHide cache s (some g) =
      if-AllHide (not g.is_active) _ _ (fails-AllHide _)
        (if-AllHide g.is_lucky _ _ (lucky-AllHide s _) (plain-AllHide s g _))

  in-AllHide : (cache : Store₂ Payload) (s : Option LiveStream) → AllHide (send_in w cache q s).1
  unfolding send_in
  in-AllHide cache none = fails-AllHide _
  in-AllHide cache (some s) =
      if-AllHide (is_some s.ended_at) _ _ (fails-AllHide _) (gift-AllHide cache s _)

  -- The events that a room gets of a gift whose sender is hidden, lucky or not, have neither the sender's
  -- id nor their public id, but for the id in the event of a lucky win.
  pub hidden_sender :
      (cache : Store₂ Payload) (claimed : Bool)
      → All Hides (emits claimed (send_stream_gift w cache q).1)
  unfolding send_stream_gift
  hidden_sender cache = if-AllHide w.frozen _ _ (fails-AllHide _) (in-AllHide cache w.stream)

abbrev pub win_of : Result → Option ShownWin
win_of (fails e) = none
win_of (delivers s) = s.lucky_win

-- The win of a lucky gift that is sent without a client's id has the sender's id, also where the sender
-- is hidden.
pub win_names_sender :
    (w : World) (q : GiftRequest) (cache : Store₂ Payload) (win : ShownWin)
    → q.client_tx_id ≡ none
    → win_of (send_stream_gift w cache q).1 ≡ some win
    → win.sender_id ≡ q.sender_id
unfolding send_stream_gift send_lucky_gift result_payload
win_names_sender w q cache win e h = ground (arith, e, h)
