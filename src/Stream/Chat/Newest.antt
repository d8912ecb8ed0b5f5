-- ===== src/Stream/Chat/Newest.antt =====
-- On src/routes/service/serviceMessage.js. What the list of a chat keeps, and how it is censored.
use live_server.Common.{
  ℕ, ◌≤◌, ◌≡◌, refl, ap, ◌∙◌, sym, false, Option, none, some, List, [], ◌∷◌, ◌++◌, map, last,
  last-last, length, length-drop, drop, subst, arith, ◌==◌, Bool-cases, inl, inr, append_assoc,
  append-nil, ◌-◌,
}
use live_server.Utils.Censor.{Text}
use live_server.Utils.Censor.Memo.{Right, censored, censor_parts-exact}
use live_server.Stream.Chat.{
  system_sender_id, Message, Chat, Reads, Error, Result, refused, posted, send_message, post,
  post_unless, gates, BannedList, filtered, with_curve, censor_threshold, max_messages,
  unless_muted, unless_disabled, with_mode,
}
use live_server.Stream.Permissions.{
  ChatMode, get_chat_permission, everyone, all_muted, followers_only, admins_only,
}

-- The message of a result.
abbrev pub posted_of : Result → List Message
posted_of (refused e) = []
posted_of (posted m s) = m ∷ []

short_last : (ms : List Message) → length ms ≤ max_messages → ms ≡ last max_messages (ms ++ [])
short_last ms h =
    let short : length ms - max_messages ≡ 0 = omega (arith, h) in
    sym (ap (last max_messages) (append-nil ms) ∙ ap (λ k. drop k ms) short)

-- The gates leave the messages and the list of banned words alone.
Same : Chat → Chat → Type 0
Same c c' = (c'.messages ≡ c.messages) × (c'.banned ≡ c.banned)

mode-Same : (r : Reads) (c : Chat) (u : ℕ) (mode : ChatMode) → Same c (with_mode r c u mode).0
unfolding Same
mode-Same r c u everyone = (refl, refl)
mode-Same r c u all_muted = (refl, refl)
mode-Same r c u admins_only = (refl, refl)
mode-Same r c u followers_only = (refl, refl)

disabled-Same :
    (r : Reads) (c : Chat) (u : ℕ) (mode : ChatMode) (o : Option ℕ)
    → Same c (unless_disabled r c u mode o).0
unfolding Same
disabled-Same r c u mode none = mode-Same r c u mode
disabled-Same r c u mode (some t) = (refl, refl)

muted-Same :
    (r : Reads) (c : Chat) (u : ℕ) (mode : ChatMode) (o : Option ℕ)
    → Same c (unless_muted r c u mode o).0
unfolding Same
muted-Same r c u mode none = disabled-Same r c u mode (r.messaging_disable u)
muted-Same r c u mode (some t) = (refl, refl)

gates-Same : (r : Reads) (c : Chat) (u : ℕ) → Same c (gates r c u).0
unfolding gates Same
gates-Same r c u =
    let (permission', mode) = get_chat_permission r.up.database c.permission c.stream_id in
    muted-Same r (record c { permission = permission' }) u mode (r.chat_mute u)

post_unless-last :
    (r : Reads) (m : Message) (c : Chat) (e : Option Error)
    → length c.messages ≤ max_messages
    → let (c', result) = post_unless r m (c, e) in
      c'.messages ≡ last max_messages (c.messages ++ posted_of result)
unfolding post
post_unless-last r m c (some e) h = short_last c.messages h
post_unless-last r m c none h = refl

send_message-last :
    (r : Reads) (c : Chat) (m : Message)
    → length c.messages ≤ max_messages
    → let (c', result) = send_message r c m in
      c'.messages ≡ last max_messages (c.messages ++ posted_of result)
unfolding send_message post Same
send_message-last r c m h = elim (Bool-cases (m.sender_id == system_sender_id)) [
  | inl system ↦ rw system (refl)
  | inr user ↦
      let gated : Chat × Option Error = gates r c m.sender_id in
      let same : gated.0.messages ≡ c.messages = (gates-Same r c m.sender_id).0 in
      let kept = post_unless-last r m gated.0 gated.1 (ground (arith, same, h)) in
      rw user (kept ∙ ap (λ ms. last max_messages (ms ++ posted_of (post_unless r m gated).1)) same)
]

-- Requests one after the other, and the messages that they post.
pub send_all : Chat → List (Reads × Message) → Chat × List Message
send_all c [] = (c, [])
send_all c ((r, m) ∷ requests) =
    let (c', result) = send_message r c m in
    let (c'', more) = send_all c' requests in (c'', posted_of result ++ more)

last-length : (ms : List Message) → length (last max_messages ms) ≤ max_messages
last-length ms = omega (arith, length-drop (length ms - max_messages) ms)

-- After any requests, a list of at most 200 messages is the last 200 of what it was with all the messages
-- posted since, as if it had been cut once.
pub newest_kept :
    (c : Chat) (requests : List (Reads × Message))
    → length c.messages ≤ max_messages
    → let (c', new) = send_all c requests in
      (c'.messages ≡ last max_messages (c.messages ++ new)) × (length c'.messages ≤ max_messages)
unfolding send_all
newest_kept c [] h = (short_last c.messages h, h)
newest_kept c ((r, m) ∷ requests) h =
    let sent : Chat × Result = send_message r c m in
    let new : List Message = posted_of sent.1 in
    let more : List Message = (send_all sent.0 requests).1 in
    let one : sent.0.messages ≡ last max_messages (c.messages ++ new) = send_message-last r c m h in
    let short : length sent.0.messages ≤ max_messages =
      subst (λ ms. length ms ≤ max_messages) (sym one) (last-length (c.messages ++ new)) in
    let ih = newest_kept sent.0 requests short in
    (
      ih.0
          ∙ ap (λ ms. last max_messages (ms ++ more)) one
          ∙ last-last max_messages (c.messages ++ new) more
          ∙ ap (last max_messages) (append_assoc c.messages new more),
      ih.1,
    )

-- A memo that is right of the list of banned words.
abbrev pub RightList : Option BannedList → Type 0
RightList none = Unit
RightList (some b) = Right (with_curve b.words) censor_threshold b.verdicts

-- A text as the censor shows it without a memo.
pub clean : Option BannedList → List Text → List Text
clean none parts = parts
clean (some b) parts = map (censored (with_curve b.words) censor_threshold) parts

filtered-clean :
    (o : Option BannedList) (parts : List Text)
    → RightList o
    → RightList (filtered o parts).0 × ((filtered o parts).1 ≡ clean o parts)
unfolding clean
filtered-clean none parts h = (tt, refl)
filtered-clean (some b) parts h =
    censor_parts-exact (with_curve b.words) censor_threshold b.verdicts parts h

-- What is true of a result, of the text that is posted.
abbrev pub PostsText : List Text → Result → Type 0
PostsText text (refused e) = Unit
PostsText text (posted m s) = m.message ≡ text

post_unless-clean :
    (r : Reads) (m : Message) (c : Chat) (e : Option Error)
    → RightList c.banned
    → let (c', result) = post_unless r m (c, e) in
      RightList c'.banned × PostsText (clean c.banned m.message) result
unfolding post
post_unless-clean r m c (some e) h = (h, tt)
post_unless-clean r m c none h = filtered-clean c.banned m.message h

-- Every message of a user that is posted is posted as the censor shows it without its memo, "curve" being
-- banned as well, and the memo stays right, so that this is true of the next message.
pub posted_clean :
    (r : Reads) (c : Chat) (m : Message)
    → (m.sender_id == system_sender_id) ≡ false
    → RightList c.banned
    → let (c', result) = send_message r c m in
      RightList c'.banned × PostsText (clean c.banned m.message) result
unfolding send_message Same
posted_clean r c m user h =
    let gated : Chat × Option Error = gates r c m.sender_id in
    let same : gated.0.banned ≡ c.banned = (gates-Same r c m.sender_id).1 in
    let kept = post_unless-clean r m gated.0 gated.1 (subst RightList (sym same) h) in
    let posts : Chat × Result = post_unless r m gated in
    rw user ((kept.0, subst (λ o. PostsText (clean o m.message) posts.1) same kept.1))
