-- ===== src/Access/Session/Revocation.antt =====
-- On src/services/session.service.js. Which tokens pass.
use live_server.Common.{
  ℕ, ◌≡◌, ◌≢◌, Bool, true, false, ◌&&◌, not, Option, none, some, arith, ◌==◌, or_else, is_id,
}
use live_server.Access.Session.{
  allow, deny, session_invalid, Payload, SessionBlob, no_blob, unparsable, blob, SessionRow, Stores,
  user_of, expected_version, version_of, check_access_payload, Verdict,
}

-- The session is known, belongs to the user, is live, and has the version of the token.
abbrev pub row_ok : ℕ → ℕ → Option SessionRow → Bool
row_ok user version none = false
row_ok user version (some row) =
    not row.is_revoked && row.is_active && row.user_id == user && row.token_version == version

abbrev pub session_ok : ℕ → ℕ → SessionBlob → Option SessionRow → Bool
session_ok user version no_blob row = row_ok user version row
session_ok user version unparsable row = false
session_ok user version (blob revoked owner v) row =
    not revoked && is_id owner user && is_id v version

abbrev pub token_ok : Payload → Stores → Option ℕ → Bool
token_ok p st none = false
token_ok p st (some user) =
    or_else p.token_version 0 == version_of st user
    && (elim p.session_id [
      | none ↦ true
      | some s ↦ session_ok user (expected_version p) (st.session_blob s) (st.session_row s)
    ])
    && (elim p.device_id [ none ↦ true | some d ↦ not (st.device_banned d) ])

abbrev pub is_allow : Verdict → Bool
is_allow allow = true
is_allow (deny status code) = false

-- The check lets a token through exactly if it names a user, carries that user's token version, its
-- session (if it has one) is that user's, live, not revoked and of the token's version, and its device
-- (if it has one) is not banned.
pub check-access_iff :
    (p : Payload) (st : Stores) → is_allow (check_access_payload p st) ≡ token_ok p st (user_of p)
unfolding check_access_payload
check-access_iff p st = ground arith

-- A ban, a logout everywhere or a password reset changes the user's version: from then on every
-- token with another version is refused as SESSION_INVALID, whatever session and device it names.
pub check-version_changed :
    (p : Payload) (st : Stores) (user : ℕ)
    → user_of p ≡ some user
    → or_else p.token_version 0 ≢ version_of st user
    → check_access_payload p st ≡ deny 401 session_invalid
unfolding check_access_payload
check-version_changed p st user e h = ground arith
