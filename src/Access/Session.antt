-- ===== src/Access/Session.antt =====
-- src/services/session.service.js: is a verified access token still valid? User, session and device ids
-- are numbers that differ from every empty or missing value, and what Redis and Postgres answer is an
-- argument.
pub mod Revocation
use live_server.Common.{
  ℕ, Bool, true, false, ◌&&◌, ◌||◌, not, Option, none, some, ◌==◌, if◌then◌else◌, or_else, is_id,
}

pub data Code : Type 0 where
  invalid_token session_invalid session_token_stale device_banned : Code

pub data Verdict : Type 0 where
  allow : Verdict
  deny : ℕ → Code → Verdict

-- The claims that the check reads; `device_id` is the trimmed string, if it is not empty.
pub record Payload : Type 0 where
  pub user_id : Option ℕ
  pub sub : Option ℕ
  pub session_id : Option ℕ
  pub device_id : Option ℕ
  pub token_version : Option ℕ
  pub session_token_version : Option ℕ

-- `session:<id>` in Redis: missing or empty, no JSON, or an object.
pub data SessionBlob : Type 0 where
  no_blob unparsable : SessionBlob
  blob : Bool → Option ℕ → Option ℕ → SessionBlob

-- A row of `sessions`.
pub record SessionRow : Type 0 where
  pub user_id : ℕ
  pub is_revoked : Bool
  pub is_active : Bool
  pub token_version : ℕ

-- What the stores hold. A Redis that is closed or fails answers as if every key were missing.
pub record Stores : Type 0 where
  pub cached_token_version : ℕ → Option ℕ
  pub user_token_version : ℕ → ℕ
  pub session_blob : ℕ → SessionBlob
  pub session_row : ℕ → Option SessionRow
  pub device_banned : ℕ → Bool

-- `payload.userId || payload.sub`
abbrev pub user_of : Payload → Option ℕ
user_of p = elim p.user_id [ none ↦ p.sub | some u ↦ some u ]

abbrev pub expected_version : Payload → ℕ
expected_version p = or_else p.session_token_version 0

check_row : ℕ → ℕ → Option SessionRow → Verdict → Verdict
check_row user expected none next = deny 401 session_invalid
check_row user expected (some row) next =
    if row.is_revoked || not row.is_active || not (row.user_id == user)
    then deny 401 session_invalid
    else if not (row.token_version == expected)
    then deny 401 session_token_stale
    else next

check_blob : ℕ → ℕ → SessionBlob → Option SessionRow → Verdict → Verdict
check_blob user expected no_blob row next = check_row user expected row next
check_blob user expected unparsable row next = deny 401 session_invalid
check_blob user expected (blob revoked owner version) row next =
    if revoked || not (is_id owner user)
    then deny 401 session_invalid
    else if not (is_id version expected)
    then deny 401 session_token_stale
    else next

check_session : Stores → ℕ → Payload → Option ℕ → Verdict → Verdict
check_session st user p none next = next
check_session st user p (some session) next =
    check_blob user (expected_version p) (st.session_blob session) (st.session_row session) next

check_device : Stores → Option ℕ → Verdict
check_device st none = allow
check_device st (some device) = if st.device_banned device then deny 403 device_banned else allow

-- The version in force: the cached one, or else the row's.
abbrev pub version_of : Stores → ℕ → ℕ
version_of st user = or_else (st.cached_token_version user) (st.user_token_version user)

check_user : Stores → Payload → Option ℕ → Verdict
check_user st p none = deny 401 invalid_token
check_user st p (some user) =
    if not (or_else p.token_version 0 == version_of st user)
    then deny 401 session_invalid
    else check_session st user p p.session_id (check_device st p.device_id)

unfoldable pub check_access_payload : Payload → Stores → Verdict
unfolding check_user check_session check_blob check_row check_device
check_access_payload p st = check_user st p (user_of p)
