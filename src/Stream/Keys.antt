-- ===== src/Stream/Keys.antt =====
-- The Redis keys of a live stream, and `clearLiveStreamRedisKeys` of src/routes/service/serviceLive.js.
-- The families whose values the end of a stream reads are modelled with them, the others by name.
use live_server.Common.{
  ℕ, Bool, true, false, ◌&&◌, not, Option, none, List, [], ◌∷◌, ◌++◌, ◌==◌, if◌then◌else◌,
}
use live_server.Common.Store.{Store}
use live_server.Stream.Camera.{Camera}

pub data Family : Type 0 where
  active_stream info heartbeat heartbeat_user active history chats admins kicked password : Family
  sheet mic_permission chat_permission uncounted_seconds camera_off_at : Family
  disconnect_timer host_confirmed host_absent_since viewer_cards_epoch : Family

abbrev family_code : Family → ℕ
family_code active_stream = 0
family_code info = 1
family_code heartbeat = 2
family_code heartbeat_user = 3
family_code active = 4
family_code history = 5
family_code chats = 6
family_code admins = 7
family_code kicked = 8
family_code password = 9
family_code sheet = 10
family_code mic_permission = 11
family_code chat_permission = 12
family_code uncounted_seconds = 13
family_code camera_off_at = 14
family_code disconnect_timer = 15
family_code host_confirmed = 16
family_code host_absent_since = 17
family_code viewer_cards_epoch = 18

-- `user:active_stream:<user>`, `stream:info:<stream>` and so on.
pub record Key : Type 0 where
  pub family : Family
  pub id : ℕ

abbrev pub key : Family → ℕ → Key
key f i = record { family = f; id = i }

abbrev pub has_key : List Key → Family → ℕ → Bool
has_key [] f i = false
has_key (k ∷ ks) f i =
    if (family_code k.family == family_code f) && (k.id == i) then true else has_key ks f i

-- The list that `clearLiveStreamRedisKeys` deletes, for ids that are all given.
abbrev pub keys_to_clear : ℕ → ℕ → ℕ → List Key
keys_to_clear sid user id =
    key active_stream user
    ∷ key info sid
    ∷ ((if not (id == sid) then key info id ∷ [] else [])
        ++ (key heartbeat sid
            ∷ key heartbeat_user user
            ∷ key active sid
            ∷ key history sid
            ∷ key chats sid
            ∷ key admins sid
            ∷ key kicked sid
            ∷ key password sid
            ∷ key sheet sid
            ∷ key mic_permission sid
            ∷ key chat_permission sid
            ∷ key uncounted_seconds sid
            ∷ key camera_off_at sid
            ∷ key disconnect_timer sid
            ∷ key host_confirmed sid
            ∷ key host_absent_since sid
            ∷ key viewer_cards_epoch sid
            ∷ []))

-- The value of `stream:info:<stream>`, parsed.
pub record Info : Type 0 where
  pub user_id : ℕ
  pub id : Option ℕ
  pub stream_id : Option ℕ

pub record LiveKeys : Type 0 where
  pub active_stream_of : Store ℕ
  pub info_of : Store Info
  pub camera : ℕ → Camera
  pub history_of : ℕ → List ℕ
  pub chats_of : ℕ → List ℕ

abbrev pub del_keys : List Key → LiveKeys → LiveKeys
del_keys ks k = record {
  active_stream_of = λ i. if has_key ks active_stream i then none else k.active_stream_of i;
  info_of = λ i. if has_key ks info i then none else k.info_of i;
  camera = λ i. record {
    off_at = if has_key ks camera_off_at i then none else (k.camera i).off_at;
    uncounted = if has_key ks uncounted_seconds i then 0 else (k.camera i).uncounted;
  };
  history_of = λ i. if has_key ks history i then [] else k.history_of i;
  chats_of = λ i. if has_key ks chats i then [] else k.chats_of i;
}

unfoldable pub clear_live_stream_redis_keys : Bool → LiveKeys → ℕ → ℕ → ℕ → LiveKeys
clear_live_stream_redis_keys redis_open k sid user id =
    if redis_open then del_keys (keys_to_clear sid user id) k else k
