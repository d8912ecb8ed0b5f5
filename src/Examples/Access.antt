-- ===== src/Examples/Access.antt =====
-- Tokens, handshakes and packets at concrete inputs.
use live_server.Common.{◌≡◌, ◌↔◌, true, false, none, some, [], ◌∷◌, ◌==◌, if◌then◌else◌, All}
use live_server.Access.Session.{Payload, no_blob, Stores, check_access_payload}
use live_server.Access.Session.Revocation.{token_ok, is_allow, check-access_iff}
use live_server.Access.SocketAuth.{Claims, verified, expired, invalid_signature, Jwt, Handshake}
use live_server.Access.Payload.{
  Field, Value, stream_id, target_user_id, mute_state, str, nothing, boolean, natural,
  toggle_sheet_mute, payload_problem, schema,
}
use live_server.Access.Payload.Fits.{Fits, payload_problem-none_iff}

abbrev payload : Payload
payload = record {
  user_id = none;
  sub = some 5;
  session_id = some 8;
  device_id = some 3;
  token_version = some 2;
  session_token_version = some 1;
}

abbrev stores : Stores
stores = record {
  cached_token_version = λ u. none;
  user_token_version = λ u. 2;
  session_blob = λ s. no_blob;
  session_row =
      λ s. some (record { user_id = 5; is_revoked = false; is_active = true; token_version = 1 });
  device_banned = λ d. d == 4;
}

check-access_iff_example :
    is_allow (check_access_payload payload stores) ≡ token_ok payload stores (some 5)
check-access_iff_example = check-access_iff payload stores

-- Signed with the previous secret, 6, and expired at 1000.
abbrev claims : Claims
claims = record { payload = payload; exp = some 1000 }

abbrev jwt : Jwt
jwt t secret ignore =
    if secret == 6 then (if ignore then verified claims else expired) else invalid_signature

abbrev handshake : Handshake
handshake = record { auth_user_id = some 99; query_user_id = none; tokens = none ∷ some 70 ∷ [] }

abbrev mute : Field → Value
mute stream_id = str 36
mute target_user_id = natural 7
mute mute_state = boolean true
mute _ = nothing

payload_problem-none_iff_example :
    (payload_problem toggle_sheet_mute mute ≡ none) ↔ All (Fits mute) (schema toggle_sheet_mute)
payload_problem-none_iff_example = payload_problem-none_iff toggle_sheet_mute mute
