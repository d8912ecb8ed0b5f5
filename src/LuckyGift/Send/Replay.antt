-- ===== src/LuckyGift/Send/Replay.antt =====
-- On src/routes/service/serviceLuckyGift.js. A send that is repeated, and what a send charges and shows.
use live_server.Common.{ℕ, ◌≡◌, ◌↔◌, none, some, or_else, List, arith}
use live_server.Common.Store.{Store₂}
use live_server.LuckyGift.Send.{
  Gift, Request, Payload, LedgerCall, LedgerReply, Draw, Outcome, sent, result_payload, legacy,
  water_v1,
}

module _ (cache : Store₂ Payload) (q : Request) (client : ℕ) (p : Payload)
    (e : q.client_tx_id ≡ some client) where
  -- A send that succeeds remembers its answer under the sender and the client's id.
  Remembers : Store₂ Payload × Outcome × List LedgerCall → Type 0
  Remembers (cache', outcome, calls) = outcome ≡ sent p → cache' q.sender_id client ≡ some p

-- A payload that is made from an answer of the ledger has a win just where there are reward coins: those
-- of the ledger where its own draw counts, and those of the local draw where it does not.
pub win_iff :
    (q : Request) (g : Gift) (count : ℕ) (r : LedgerReply) (d : Draw)
    → let p = result_payload q g count r d in
      ((p.lucky_win ≡ none) ↔ (p.total_reward_coins ≡ 0))
      × (p.total_reward_coins ≡ (elim r.engine [
        | legacy ↦ d.total_reward
        | water_v1 ↦ or_else r.reward_coins d.total_reward
      ]))
unfolding result_payload
win_iff q g count r d = ground arith
