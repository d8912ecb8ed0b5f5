-- ===== src/VideoCall/Initiate/Allowed.antt =====
-- On src/modules/videoCall/service.js. When a call rings.
use live_server.Common.{
  ℕ, ◌+◌, ◌-◌, ◌<◌, ◌≡◌, ◌≢◌, ◌↔◌, ◌⊎◌, true, false, Option, none, some, List, [], ◌∷◌,
  if◌then◌else◌, or_else, is_some, arith,
}
use live_server.Common.Int.{pos, ◌≤ℤ◌}
use live_server.VideoCall.Session.{Session, ringing, active}
use live_server.VideoCall.Initiate.{
  Settings, Answers, Request, create_session, emit_user_busy, end_stale, emit_incoming, is_stale,
  initiate_call_unlocked,
}

-- No ping, or one more than 30 s ago.
abbrev pub Quiet : Option ℕ → ℕ → Type 0
Quiet none now = Unit
Quiet (some p) now = 30000 < now - p

-- No session, or one that is stale: ringing for more than 45 s, or active and quiet.
abbrev pub NotBusy : Option Session → Option ℕ → ℕ → Type 0
NotBusy none ping now = Unit
NotBusy (some s) ping now =
    ((s.status ≡ ringing) × (45000 < now - s.started_at)) ⊎ ((s.status ≡ active) × Quiet ping now)

-- The receiver's settings let the caller through.
abbrev pub Accepts : Option Settings → ℕ → Type 0
Accepts none level = ⊥
Accepts (some s) level =
    (s.accept_video_calls ≡ true)
    × ((s.block_lv10 ≡ false) ⊎ (10 < level))
    × ((s.block_lv5 ≡ false) ⊎ (5 < level))

-- A call rings exactly if the caller's coins are not frozen and pay for the first minute, caller and
-- receiver differ, the receiver exists, has video calls enabled and accepts them from the caller's
-- wealth level (1 if unknown), neither has blocked the other, and neither is in a call, unless it has
-- rung for more than 45 s, or is active without a ping in the last 30 s.
pub initiate_iff :
    (a : Answers) (caller creator : ℕ)
    → ((initiate_call_unlocked a caller creator).error ≡ none) ↔ (
        (a.caller_frozen ≡ false)
        × (caller ≢ creator)
        × (a.creator_exists ≡ true)
        × Accepts a.settings (or_else a.wealth_level 1)
        × (a.blocked ≡ false)
        × (pos a.coin_rate ≤ℤ a.caller_coins)
        × NotBusy a.caller_busy a.caller_busy_ping a.now
        × NotBusy a.creator_busy a.creator_busy_ping a.now)
unfolding initiate_call_unlocked is_stale
initiate_iff a caller creator = (λ e. ground arith, λ h. ground arith)

abbrev pub creations : List Request → ℕ
creations [] = 0
creations (end_stale s c ∷ rs) = creations rs
creations (emit_user_busy c d ∷ rs) = creations rs
creations (create_session c d p ∷ rs) = 1 + creations rs
creations (emit_incoming c d ∷ rs) = creations rs

-- One session is created if the call rings, and none if there is an error.
pub creations_match :
    (a : Answers) (caller creator : ℕ)
    → let i = initiate_call_unlocked a caller creator in
      creations i.requests ≡ (if is_some i.error then 0 else 1)
unfolding initiate_call_unlocked
creations_match a caller creator = ground arith
