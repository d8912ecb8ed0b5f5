-- ===== src/Access/SocketAuth/Identity.antt =====
-- On src/socket/socketAuth.js. Whom a connected socket acts as, and which tokens count.
use live_server.Common.{
  ℕ, ◌+◌, ◌≤◌, ◌≡◌, ◌⊎◌, Bool, true, false, ◌&&◌, Option, none, some, arith, is_some,
}
use live_server.Access.Session.{user_of}
use live_server.Access.SocketAuth.{
  AuthMode, log, enforce, SessionMode, Claims, JwtResult, verified, expired, Handshake,
  TokenOutcome, ok, expired_ok, both_enforce, Check, revoked, Decision, reject_token,
  reject_session, proceed, socket_auth_middleware, socket_user_id, expired_grace_sec,
}

-- What a decision lets through, and as whom.
abbrev pub ActsAs : Option ℕ → Decision → Type 0
ActsAs u (reject_token o) = Unit {0}
ActsAs u (reject_session c) = Unit {0}
ActsAs u (proceed auth h) = socket_user_id auth h ≡ u

abbrev pub stops : Decision → Bool
stops (reject_token o) = true
stops (reject_session c) = true
stops (proceed auth h) = false

-- In mode enforce a socket that gets through acts as the user that its token was verified for, whatever
-- the handshake claims, and a handshake with no verified user does not get through.
pub enforce_identity :
    (session_mode : SessionMode) (h : Handshake) (check : Check) (outcome : TokenOutcome)
    (user : Option ℕ)
    → ActsAs user (socket_auth_middleware enforce session_mode h check (outcome, user))
      × (socket_auth_middleware enforce session_mode h check (outcome, none) ≡ reject_token outcome)
unfolding socket_auth_middleware socket_user_id
enforce_identity session_mode h check outcome user = ground arith

-- In every mode but off, a socket whose token was verified acts as that user if it gets through, and
-- it is stopped exactly if both modes enforce and the session check found it revoked (a stale session
-- token is not).
pub verified_identity :
    (mode : AuthMode) (session_mode : SessionMode) (h : Handshake) (check : Check)
    (outcome : TokenOutcome) (u : ℕ)
    → (mode ≡ log) ⊎ (mode ≡ enforce)
    → let d = socket_auth_middleware mode session_mode h check (outcome, some u) in
      ActsAs (some u) d × (stops d ≡ (both_enforce mode session_mode && is_some (revoked check)))
unfolding socket_auth_middleware socket_user_id
verified_identity mode session_mode h check outcome u m = ground arith

-- A verified payload that names the user, and for an expired token an expiry within the grace.
abbrev pub Accepted : ℕ → JwtResult → JwtResult → TokenOutcome → ℕ → Type 0
Accepted now strict lax outcome u =
    (c : Claims) × (user_of c.payload ≡ some u)
    × (((outcome ≡ ok) × (strict ≡ verified c))
        ⊎ ((exp : ℕ) × (outcome ≡ expired_ok)
            × (strict ≡ expired)
            × (lax ≡ verified c)
            × (c.exp ≡ some exp)
            × (now ≤ exp + expired_grace_sec)))
