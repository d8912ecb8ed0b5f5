-- ===== src/Access/Rejoin/Rules.antt =====
-- On src/services/rejoinToken.service.js. Who gets which token.
use live_server.Common.{ℕ, ◌≡◌, ◌&&◌, not, Option, none, some, arith, ◌==◌, if◌then◌else◌, is_some}
use live_server.Access.Rejoin.{
  Stream, Role, host, viewer, Deps, Answer, denied, token, rejoin_token_service,
}

abbrev pub role_of : Answer → Option Role
role_of (denied status code) = none
role_of (token role t stream id) = some role

-- The rule of who may rejoin a stream, and as what.
abbrev pub entitled : Deps → ℕ → Option Stream → Option Role
entitled d user none = none
entitled d user (some s) =
    if s.is_live && s.user_id == user
    then some host
    else if s.is_live
        && not (is_some (d.is_kicked s.stream_id user))
        && d.has_joined s.stream_id user
    then some viewer
    else none

-- A token is given exactly to the host of a live stream, as host, and to a viewer of one who joined it
-- and is not kicked, as viewer.
pub rejoin-entitled :
    (d : Deps) (id user : ℕ)
    → role_of (rejoin_token_service d id user) ≡ entitled d user (d.get_stream id)
unfolding rejoin_token_service
rejoin-entitled d id user = ground arith
