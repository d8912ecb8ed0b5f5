-- ===== src/Access/Rejoin.antt =====
-- src/services/rejoinToken.service.js: a fresh LiveKit token for a host or viewer who reconnects. The
-- controller's reads are arguments; `kick_ttl` is `none` for a viewer who is not kicked.
pub mod Rules
use live_server.Common.{
  ℕ, Bool, true, false, ◌&&◌, not, Option, none, some, ◌==◌, if◌then◌else◌, is_some,
}

pub record Stream : Type 0 where
  pub id : ℕ
  pub stream_id : ℕ
  pub user_id : ℕ
  pub is_live : Bool

pub data Role : Type 0 where
  host viewer : Role

pub data Code : Type 0 where
  stream_not_found stream_ended kicked not_joined : Code

pub data Decision : Type 0 where
  grant : Role → Decision
  refuse : ℕ → Code → Decision

unfoldable pub decide_rejoin : Option Stream → ℕ → Option ℕ → Bool → Decision
decide_rejoin none user kick_ttl has_joined = refuse 404 stream_not_found
decide_rejoin (some s) user kick_ttl has_joined =
    if not s.is_live
    then refuse 404 stream_ended
    else if s.user_id == user
    then grant host
    else if is_some kick_ttl
    then refuse 403 kicked
    else if not has_joined
    then refuse 403 not_joined
    else grant viewer

-- The `deps` of the service: reads by stream and user, and the two token makers.
pub record Deps : Type 0 where
  pub get_stream : ℕ → Option Stream
  pub is_kicked : ℕ → ℕ → Option ℕ
  pub has_joined : ℕ → ℕ → Bool
  pub host_token : ℕ → ℕ → ℕ
  pub viewer_token : ℕ → ℕ → ℕ

pub data Answer : Type 0 where
  denied : ℕ → Code → Answer
  token : Role → ℕ → ℕ → ℕ → Answer

-- The reads are made only for a viewer of a live stream.
reads : Deps → Option Stream → ℕ → Option ℕ × Bool
reads d none user = (none, false)
reads d (some s) user =
    if s.is_live && not (s.user_id == user)
    then (d.is_kicked s.stream_id user, d.has_joined s.stream_id user)
    else (none, false)

answer : Deps → Option Stream → ℕ → Decision → Answer
answer d none user decision = denied 404 stream_not_found
answer d (some s) user (refuse status code) = denied status code
answer d (some s) user (grant host) = token host (d.host_token s.stream_id user) s.stream_id s.id
answer d (some s) user (grant viewer) =
    token viewer (d.viewer_token s.stream_id user) s.stream_id s.id

unfoldable pub rejoin_token_service : Deps → ℕ → ℕ → Answer
unfolding reads answer decide_rejoin
rejoin_token_service d id user =
    let stream = d.get_stream id in
    let (kick_ttl, has_joined) = reads d stream user in
    answer d stream user (decide_rejoin stream user kick_ttl has_joined)
