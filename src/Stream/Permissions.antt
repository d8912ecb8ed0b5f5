-- ===== src/Stream/Permissions.antt =====
-- The permissions of a stream in src/routes/service/serviceLive.js: whether a seat has to be asked for,
-- and who may chat. Each is a column of `liveStream` and a key of Redis that never expires.
pub mod Kept
use live_server.Common.{ℕ, Bool, true, false, Option, none, some, or_else, if◌then◌else◌}
use live_server.Common.Store.{Store, put}

-- The keys, and the column of the rows that there are.
pub record Permission {ℓ} (V : Type ℓ) : Type ℓ where
  pub cache : Store V
  pub rows : Store V

module _ {ℓ} {V : Type ℓ} where
  abbrev put_row : Bool → Store V → ℕ → Option V → V → Store V
  put_row answers rows stream none v = rows
  put_row answers rows stream (some old) v = if answers then put rows stream v else rows

  -- The row first, if there is one and the database answers, then the key.
  abbrev pub set_both : Bool → Permission V → ℕ → V → Permission V
  set_both answers p stream v = record {
    cache = put p.cache stream v;
    rows = put_row answers p.rows stream (p.rows stream) v;
  }

  abbrev read_row : Bool → Option V → V → V
  read_row answers row default = if answers then or_else row default else default

  abbrev cached_or : Permission V → ℕ → Option V → V → Permission V × V
  cached_or p stream (some v) w = (p, v)
  cached_or p stream none w = (record p { cache = put p.cache stream w }, w)

  -- The key, or else the row, or else the default, which is cached then.
  abbrev pub get_either : Bool → Permission V → ℕ → V → Permission V × V
  get_either answers p stream default =
      cached_or p stream (p.cache stream) (read_row answers (p.rows stream) default)

-- What a client sends: a boolean, the text "false", or anything else.
pub data Sent : Type 0 where
  sent_bool : Bool → Sent
  text_false other : Sent

abbrev pub is_required : Sent → Bool
is_required (sent_bool b) = b
is_required text_false = false
is_required other = true

unfoldable pub set_mic_permission : Bool → Permission Bool → ℕ → Sent → Permission Bool × Bool
set_mic_permission answers p stream sent =
    (set_both answers p stream (is_required sent), is_required sent)

unfoldable pub get_mic_permission : Bool → Permission Bool → ℕ → Permission Bool × Bool
get_mic_permission answers p stream = get_either answers p stream true

pub data ChatMode : Type 0 where
  everyone all_muted followers_only admins_only : ChatMode

-- A mode that is sent, or a text that is none.
pub data SentMode : Type 0 where
  mode : ChatMode → SentMode
  no_mode : SentMode

abbrev pub target_mode : SentMode → ChatMode
target_mode (mode m) = m
target_mode no_mode = everyone

unfoldable pub set_chat_permission :
    Bool → Permission ChatMode → ℕ → SentMode → Permission ChatMode × ChatMode
set_chat_permission answers p stream sent =
    (set_both answers p stream (target_mode sent), target_mode sent)

unfoldable pub get_chat_permission : Bool → Permission ChatMode → ℕ → Permission ChatMode × ChatMode
get_chat_permission answers p stream = get_either answers p stream everyone
