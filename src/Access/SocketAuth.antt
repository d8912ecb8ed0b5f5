-- ===== src/Access/SocketAuth.antt =====
-- src/socket/socketAuth.js and src/utils/jwtRotation.js: the socket.io handshake. The library
-- `jsonwebtoken` is a parameter: what it says of the token under each secret. Secrets, tokens and user
-- ids are numbers; the five places of a token are read after `stripBearer`.
pub mod Identity
use live_server.Common.{
  ℕ, ◌+◌, Bool, true, false, ◌&&◌, ◌||◌, not, Option, none, some, List, [], ◌∷◌, ◌==◌, ltb,
  if◌then◌else◌,
}
use live_server.Access.Session.{Payload, user_of, Verdict, allow, deny, Code, session_token_stale}

-- 30 days, in seconds.
abbrev pub expired_grace_sec : ℕ
expired_grace_sec = 2592000

pub data AuthMode : Type 0 where
  off log enforce : AuthMode

-- LIVE_SESSION_CHECK_MODE
pub data SessionMode : Type 0 where
  session_log session_enforce : SessionMode

-- A verified payload with its `exp` claim, in seconds.
pub record Claims : Type 0 where
  pub payload : Payload
  pub exp : Option ℕ

pub data JwtResult : Type 0 where
  verified : Claims → JwtResult
  invalid_signature expired other_error : JwtResult

-- `jwt.verify(token, secret, { ignoreExpiration })` for a token.
abbrev pub Jwt : Type 0
Jwt = ℕ → ℕ → Bool → JwtResult

try_previous : Jwt → ℕ → Option ℕ → Bool → JwtResult → JwtResult
try_previous jwt token none ignore r = r
try_previous jwt token (some previous) ignore invalid_signature = jwt token previous ignore
try_previous jwt token (some previous) ignore (verified c) = verified c
try_previous jwt token (some previous) ignore expired = expired
try_previous jwt token (some previous) ignore other_error = other_error

unfoldable pub verify_rotating : Jwt → ℕ → ℕ → Option ℕ → Bool → JwtResult
unfolding try_previous
verify_rotating jwt token current previous ignore =
    try_previous jwt token previous ignore (jwt token current ignore)

-- `a || b`
abbrev pub first_of_two : Option ℕ → Option ℕ → Option ℕ
first_of_two none b = b
first_of_two (some a) b = some a

pub record Handshake : Type 0 where
  pub auth_user_id : Option ℕ
  pub query_user_id : Option ℕ
  -- `auth.token`, `auth.Authorization`, `auth.authorization`, the header, `query.token`
  pub tokens : List (Option ℕ)

unfoldable pub extract_socket_token : List (Option ℕ) → Option ℕ
extract_socket_token [] = none
extract_socket_token (none ∷ ts) = extract_socket_token ts
extract_socket_token (some t ∷ ts) = some t

unfoldable pub claimed_user_id : Handshake → Option ℕ
claimed_user_id h = first_of_two h.auth_user_id h.query_user_id

pub data TokenOutcome : Type 0 where
  ok expired_ok missing invalid expired_too_old : TokenOutcome

with_user : TokenOutcome → Option ℕ → TokenOutcome × Option ℕ
with_user outcome none = (invalid, none)
with_user outcome (some u) = (outcome, some u)

in_grace : ℕ → Claims → Option ℕ → TokenOutcome × Option ℕ
in_grace now_sec c none = (expired_too_old, none)
in_grace now_sec c (some exp) =
    if ltb (exp + expired_grace_sec) now_sec
    then (expired_too_old, none)
    else with_user expired_ok (user_of c.payload)

second_try : ℕ → JwtResult → TokenOutcome × Option ℕ
second_try now_sec (verified c) = in_grace now_sec c c.exp
second_try now_sec invalid_signature = (invalid, none)
second_try now_sec expired = (invalid, none)
second_try now_sec other_error = (invalid, none)

first_try : ℕ → JwtResult → JwtResult → TokenOutcome × Option ℕ
first_try now_sec (verified c) again = with_user ok (user_of c.payload)
first_try now_sec expired again = second_try now_sec again
first_try now_sec invalid_signature again = (invalid, none)
first_try now_sec other_error again = (invalid, none)

verify_with : Jwt → Option ℕ → Option ℕ → ℕ → Option ℕ → TokenOutcome × Option ℕ
verify_with jwt secret previous now_sec none = (missing, none)
verify_with jwt none previous now_sec (some token) = (invalid, none)
verify_with jwt (some secret) previous now_sec (some token) =
    first_try now_sec (verify_rotating jwt token secret previous false)
      (verify_rotating jwt token secret previous true)

unfoldable pub verify_socket_token :
    Jwt → Handshake → Option ℕ → Option ℕ → ℕ → TokenOutcome × Option ℕ
unfolding verify_with first_try second_try in_grace with_user
verify_socket_token jwt h secret previous now_sec =
    verify_with jwt secret previous now_sec (extract_socket_token h.tokens)

-- The session check of SEC-14: its verdict, or a throw.
pub data Check : Type 0 where
  check_throws : Check
  gives : Verdict → Check

-- SEC-17: a stale session token is a normal refresh for a socket.
abbrev pub revoked : Check → Option Code
revoked check_throws = none
revoked (gives allow) = none
revoked (gives (deny status code)) = elim code [ session_token_stale ↦ none | other ↦ some other ]

-- `next(err)` with its reason, or `next()` with `socket.data.authUserId` and the handshake.
pub data Decision : Type 0 where
  reject_token : TokenOutcome → Decision
  reject_session : Code → Decision
  proceed : Option ℕ → Handshake → Decision

pin_handshake_user_id : Handshake → ℕ → Handshake
pin_handshake_user_id h u = record h { auth_user_id = some u; query_user_id = some u }

abbrev pub both_enforce : AuthMode → SessionMode → Bool
both_enforce enforce session_enforce = true
both_enforce off s = false
both_enforce log s = false
both_enforce enforce session_log = false

-- The last part: log mode goes on, enforce wants a user and pins it.
by_mode : AuthMode → Handshake → TokenOutcome → Option ℕ → Decision
by_mode off h outcome user = proceed none h
by_mode log h outcome user = proceed user h
by_mode enforce h outcome none = reject_token outcome
by_mode enforce h outcome (some u) = proceed (some u) (pin_handshake_user_id h u)

by_check : AuthMode → SessionMode → Handshake → TokenOutcome → ℕ → Option Code → Decision
by_check mode session_mode h outcome u none = by_mode mode h outcome (some u)
by_check mode session_mode h outcome u (some code) =
    if both_enforce mode session_mode then reject_session code else by_mode mode h outcome (some u)

by_user : AuthMode → SessionMode → Handshake → Check → TokenOutcome × Option ℕ → Decision
by_user mode session_mode h check (outcome, none) = by_mode mode h outcome none
by_user mode session_mode h check (outcome, some u) =
    by_check mode session_mode h outcome u (revoked check)

unfoldable pub socket_auth_middleware :
    AuthMode → SessionMode → Handshake → Check → TokenOutcome × Option ℕ → Decision
unfolding by_user by_check by_mode pin_handshake_user_id
socket_auth_middleware off session_mode h check v = proceed none h
socket_auth_middleware log session_mode h check v = by_user log session_mode h check v
socket_auth_middleware enforce session_mode h check v = by_user enforce session_mode h check v

-- The user that a socket acts as.
unfoldable pub socket_user_id : Option ℕ → Handshake → Option ℕ
unfolding claimed_user_id
socket_user_id auth_user_id h = first_of_two auth_user_id (claimed_user_id h)
