-- ===== src/Stream/Chat.antt =====
-- src/routes/service/serviceMessage.js: the messages of one live stream. A message is its parts between word boundaries. Names,
-- avatars, bubbles and the texts of replies are left out.
pub mod Gates
pub mod Newest
use live_server.Common.{
  ℕ, zero, suc, ◌+◌, ◌-◌, Bool, true, false, ◌&&◌, ◌||◌, not, Option, none, some, List, [], ◌∷◌,
  ◌++◌, map, last, ◌==◌, if◌then◌else◌,
}
use live_server.Utils.Censor.{Text, to_lower_case, has_text, Verdict, censor_parts}
use live_server.Stream.Permissions.{
  Permission, ChatMode, everyone, all_muted, followers_only, admins_only, get_chat_permission,
}
use live_server.Stream.Admins.{Admins, Up, is_stream_admin}

-- SYSTEM_SENDER_ID
abbrev pub system_sender_id : ℕ
system_sender_id = 0

pub record Message : Type 0 where
  pub id : ℕ
  pub sender_id : ℕ
  pub message : List Text
  pub reply_to_user_id : Option ℕ
  pub created_at : ℕ

-- `isStealth` is `privacyMysteryLive && vipSubscriptionActive`; the level is the wallet's, or the user's.
pub record User : Type 0 where
  pub public_id : Option ℕ
  pub is_stealth : Bool
  pub wealth_level : ℕ

-- The list that `getBannedWords` answers, and what the censor has said of its words so far.
pub record BannedList : Type 0 where
  pub words : List Text
  pub verdicts : List Verdict

pub record Chat : Type 0 where
  pub stream_id : ℕ
  pub permission : Permission ChatMode
  pub admins : Admins
  pub banned : Option BannedList
  -- `stream:chats:<stream>`, the rows of `liveMessage`, and `stream:chat_cleared:<stream>`
  pub messages : List Message
  pub rows : List Message
  pub cleared_at : Option ℕ

-- What a request reads: restrictions, by the time they end, the host, followers and users.
pub record Reads : Type 0 where
  pub chat_mute : ℕ → Option ℕ
  pub messaging_disable : ℕ → Option ℕ
  pub host : Option ℕ
  pub is_following : ℕ → ℕ → Bool
  pub user : ℕ → Option User
  pub fake_public_id : ℕ → ℕ
  pub up : Up

pub data Error : Type 0 where
  chat_muted messaging_disabled : ℕ → Error
  muted_by_host only_admins only_followers : Error
  -- a TypeError, at `stream.userId`
  no_stream : Error

abbrev pub is_host : Option ℕ → ℕ → Bool
is_host none u = false
is_host (some h) u = h == u

abbrev not_following : Reads → Option ℕ → ℕ → Option Error
not_following r none u = some no_stream
not_following r (some h) u = if r.is_following u h then none else some only_followers

-- The check of a mode; the last argument is whether the sender is an admin.
abbrev pub mode_error : Reads → ChatMode → ℕ → Bool → Option Error
mode_error r everyone u is_admin = none
mode_error r all_muted u is_admin = if is_host r.host u then none else some muted_by_host
mode_error r admins_only u is_admin =
    if is_host r.host u || is_admin then none else some only_admins
mode_error r followers_only u is_admin = not_following r r.host u

abbrev asks_admins : ChatMode → Bool
asks_admins everyone = false
asks_admins all_muted = true
asks_admins followers_only = true
asks_admins admins_only = true

abbrev with_mode : Reads → Chat → ℕ → ChatMode → Chat × Option Error
with_mode r c u mode =
    let (admins', is_admin) = is_stream_admin r.up c.admins c.stream_id r.host u in
    if asks_admins mode
    then (record c { admins = admins' }, mode_error r mode u is_admin)
    else (c, none)

abbrev unless_disabled : Reads → Chat → ℕ → ChatMode → Option ℕ → Chat × Option Error
unless_disabled r c u mode (some until) = (c, some (messaging_disabled until))
unless_disabled r c u mode none = with_mode r c u mode

abbrev unless_muted : Reads → Chat → ℕ → ChatMode → Option ℕ → Chat × Option Error
unless_muted r c u mode (some until) = (c, some (chat_muted until))
unless_muted r c u mode none = unless_disabled r c u mode (r.messaging_disable u)

-- The gates of a message of a user, in the order of their errors.
unfoldable pub gates : Reads → Chat → ℕ → Chat × Option Error
gates r c u =
    let (permission', mode) = get_chat_permission r.up.database c.permission c.stream_id in
    unless_muted r (record c { permission = permission' }) u mode (r.chat_mute u)

-- "curve"
abbrev curve : Text
curve = 99 ∷ 117 ∷ 114 ∷ 118 ∷ 101 ∷ []

-- The list that is censored by, as `censorTextWithFuzzyMatch` prepares it.
abbrev pub with_curve : List Text → List Text
with_curve words =
    let lower = map to_lower_case words in
    if has_text lower curve then lower else lower ++ curve ∷ []

abbrev pub censor_threshold : ℕ
censor_threshold = 60

abbrev pub filtered : Option BannedList → List Text → Option BannedList × List Text
filtered none parts = (none, parts)
filtered (some b) parts =
    let (verdicts', shown) = censor_parts (with_curve b.words) censor_threshold b.verdicts parts in
    (some (record b { verdicts = verdicts' }), shown)

-- What a message shows of its sender.
pub record Person : Type 0 where
  pub id : Option ℕ
  pub public_id : Option ℕ
  pub wealth_level : ℕ
  pub is_mystery : Bool

pub data Sender : Type 0 where
  person : Person → Sender
  system unknown : Sender

abbrev pub shown_person : Reads → ℕ → User → Person
shown_person r u p =
    if p.is_stealth
    then record {
      id = none;
      public_id = some (r.fake_public_id u);
      wealth_level = 0;
      is_mystery = true;
    }
    else record {
      id = some u;
      public_id = p.public_id;
      wealth_level = p.wealth_level;
      is_mystery = false;
    }

abbrev user_sender : Reads → ℕ → Option User → Sender
user_sender r u none = unknown
user_sender r u (some p) = person (shown_person r u p)

abbrev target_user : Reads → ℕ → Option User → Sender
target_user r u none = system
target_user r u (some p) = person (shown_person r u p)

abbrev system_sender : Reads → Option ℕ → Sender
system_sender r none = system
system_sender r (some u) = target_user r u (r.user u)

unfoldable pub sender_of : Reads → Message → Sender
sender_of r m =
    if m.sender_id == system_sender_id
    then system_sender r m.reply_to_user_id
    else user_sender r m.sender_id (r.user m.sender_id)

pub data Result : Type 0 where
  refused : Error → Result
  posted : Message → Sender → Result

-- The list keeps the last 200.
abbrev pub max_messages : ℕ
max_messages = 200

unfoldable pub post : Reads → Chat → Message → Chat × Result
post r c m =
    (record c { messages = last max_messages (c.messages ++ m ∷ []) }, posted m (sender_of r m))

abbrev pub post_filtered : Reads → Chat → Message → Option BannedList × List Text → Chat × Result
post_filtered r c m (banned', shown) =
    post r (record c { banned = banned' }) (record m { message = shown })

abbrev pub post_unless : Reads → Message → Chat × Option Error → Chat × Result
post_unless r m (c, some e) = (c, refused e)
post_unless r m (c, none) = post_filtered r c m (filtered c.banned m.message)

-- `sendMessageService`, for a message that holds what was sent.
unfoldable pub send_message : Reads → Chat → Message → Chat × Result
send_message r c m =
    if m.sender_id == system_sender_id then post r c m else post_unless r m (gates r c m.sender_id)
