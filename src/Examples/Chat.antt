-- ===== src/Examples/Chat.antt =====
-- The chat of a live stream at concrete inputs.
use live_server.Common.{
  ◌≤◌, ◌≡◌, ◌↔◌, ◌==◌, refl, true, none, some, List, [], ◌∷◌, ◌++◌, last, length, arith,
}
use live_server.Common.Store.{empty_store}
use live_server.Utils.Censor.{Text}
use live_server.Stream.Permissions.{ChatMode, followers_only, Permission, get_chat_permission}
use live_server.Stream.Admins.{Admins}
use live_server.Stream.Chat.{
  Message, User, BannedList, Chat, Reads, refused, only_followers, send_message, max_messages,
}
use live_server.Stream.Chat.Gates.{
  is_posted, MayWrite, mode_of, admin_of, posted_iff, host_silenced,
}
use live_server.Stream.Chat.Newest.{
  RightList, PostsText, clean, posted_clean, newest_kept, send_all,
}

-- User 1 is the host of a chat for followers, and user 2 follows them.
abbrev followers : Permission ChatMode
followers = record { cache = λ s. some followers_only; rows = empty_store }

abbrev nobody : Admins
nobody = record { of_stream = λ s. []; of_host = λ h. []; rows = λ h. [] }

abbrev banned : BannedList
banned = record { words = []; verdicts = [] }

abbrev quiet_chat : Chat
quiet_chat = record {
  stream_id = 100;
  permission = followers;
  admins = nobody;
  banned = some banned;
  messages = [];
  rows = [];
  cleared_at = none;
}

abbrev hidden_user : User
hidden_user = record { public_id = some 33; is_stealth = true; wealth_level = 5 }

abbrev reads : Reads
reads = record {
  chat_mute = λ u. none;
  messaging_disable = λ u. none;
  host = some 1;
  is_following = λ u h. u == 2;
  user = λ u. some hidden_user;
  fake_public_id = λ u. 999;
  up = record { redis_open = true; database = true };
}

-- "Curve"
abbrev curve_text : List Text
curve_text = (67 ∷ 117 ∷ 114 ∷ 118 ∷ 101 ∷ []) ∷ []

abbrev from_follower : Message
from_follower = record {
  id = 50;
  sender_id = 2;
  message = curve_text;
  reply_to_user_id = none;
  created_at = 10;
}

abbrev from_host : Message
from_host = record from_follower { sender_id = 1 }

abbrev about_hidden : Message
about_hidden = record from_follower { sender_id = 0; reply_to_user_id = some 3 }

posted_iff_example :
    is_posted (send_message reads quiet_chat from_follower).1 ≡ true
    ↔ (reads.chat_mute 2 ≡ none)
      × (reads.messaging_disable 2 ≡ none)
      × MayWrite reads (mode_of reads quiet_chat) 2 (admin_of reads quiet_chat 2)
posted_iff_example = posted_iff reads quiet_chat from_follower refl

host_refused : (send_message reads quiet_chat from_host).1 ≡ refused only_followers
unfolding get_chat_permission
host_refused = host_silenced reads quiet_chat from_host refl refl refl refl refl refl

newest_kept_example :
    let (c', new) = send_all quiet_chat ((reads, from_follower) ∷ (reads, from_host) ∷ []) in
    (c'.messages ≡ last max_messages (quiet_chat.messages ++ new))
    × (length c'.messages ≤ max_messages)
newest_kept_example =
    newest_kept quiet_chat ((reads, from_follower) ∷ (reads, from_host) ∷ []) (omega arith)

no_verdicts : RightList quiet_chat.banned
no_verdicts = (tt, omega arith)

posted_clean_example :
    let (c', result) = send_message reads quiet_chat from_follower in
    RightList c'.banned × PostsText (clean quiet_chat.banned curve_text) result
posted_clean_example = posted_clean reads quiet_chat from_follower refl no_verdicts
