-- ===== src/Stream/Chat/Gates.antt =====
-- On src/routes/service/serviceMessage.js. Who may write in a chat.
use live_server.Common.{
  ℕ, ◌≡◌, refl, ◌↔◌, ◌⊎◌, inl, inr, Bool, true, false, Option, none, some, arith, ◌==◌, Bool-cases,
  ==_refl,
}
use live_server.Stream.Permissions.{
  ChatMode, everyone, all_muted, followers_only, admins_only, get_chat_permission,
}
use live_server.Stream.Admins.{is_stream_admin}
use live_server.Stream.Chat.{
  system_sender_id, Message, Chat, Reads, Error, only_followers, is_host, mode_error, gates,
  unless_muted, with_mode, unless_disabled, not_following, Result, refused, posted, send_message,
  post, post_unless,
}

-- Whom a mode lets write.
abbrev pub MayWrite : Reads → ChatMode → ℕ → Bool → Type 0
MayWrite r everyone u is_admin = Unit
MayWrite r all_muted u is_admin = r.host ≡ some u
MayWrite r admins_only u is_admin = (r.host ≡ some u) ⊎ (is_admin ≡ true)
MayWrite r followers_only u is_admin = (h : ℕ) × (r.host ≡ some h) × (r.is_following u h ≡ true)

abbrev pub is_posted : Result → Bool
is_posted (refused e) = false
is_posted (posted m s) = true

abbrev pub mode_of : Reads → Chat → ChatMode
mode_of r c = (get_chat_permission r.up.database c.permission c.stream_id).1

abbrev pub admin_of : Reads → Chat → ℕ → Bool
admin_of r c u = (is_stream_admin r.up c.admins c.stream_id r.host u).1

is_host_iff : (host : Option ℕ) (u : ℕ) → (is_host host u ≡ true) ↔ (host ≡ some u)
is_host_iff none u = (λ e. absurd (ground (arith, e)), λ e. absurd (ground (arith, e)))
is_host_iff (some h) u = (λ e. ground (arith, e), λ e. ground (arith, e, ==_refl u))

following_iff :
    (r : Reads) (host : Option ℕ) (u : ℕ)
    → (not_following r host u ≡ none) ↔ ((h : ℕ) × (host ≡ some h) × (r.is_following u h ≡ true))
following_iff r none u = (λ e. absurd (ground (arith, e)), λ (h, e, f). absurd (ground (arith, e)))
following_iff r (some h) u = (λ e. (h, refl, ground (arith, e)), λ (h', e, f). ground (arith, e, f))

mode_error_iff :
    (r : Reads) (mode : ChatMode) (u : ℕ) (is_admin : Bool)
    → (mode_error r mode u is_admin ≡ none) ↔ MayWrite r mode u is_admin
mode_error_iff r everyone u is_admin = (λ e. tt, λ e. refl)
mode_error_iff r all_muted u is_admin = (
  λ e. (is_host_iff r.host u).0 (ground (arith, e)),
  λ e. ground (arith, (is_host_iff r.host u).1 e),
)
mode_error_iff r admins_only u is_admin = (
  λ e. elim (Bool-cases (is_host r.host u)) [
    | inl own ↦ inl ((is_host_iff r.host u).0 own)
    | inr other ↦ inr (ground (arith, e, other))
  ],
  λ may. elim may [
    | inl own ↦ ground (arith, (is_host_iff r.host u).1 own)
    | inr admin ↦ ground (arith, admin)
  ],
)
mode_error_iff r followers_only u is_admin = following_iff r r.host u

with_mode_iff :
    (r : Reads) (c : Chat) (u : ℕ) (mode : ChatMode)
    → ((with_mode r c u mode).1 ≡ none) ↔ MayWrite r mode u (admin_of r c u)
with_mode_iff r c u everyone = (λ e. tt, λ e. refl)
with_mode_iff r c u all_muted = mode_error_iff r all_muted u false
with_mode_iff r c u admins_only =
    mode_error_iff r admins_only u (is_stream_admin r.up c.admins c.stream_id r.host u).1
with_mode_iff r c u followers_only = mode_error_iff r followers_only u false

disabled_iff :
    (r : Reads) (c : Chat) (u : ℕ) (mode : ChatMode) (disabled : Option ℕ)
    → ((unless_disabled r c u mode disabled).1 ≡ none)
      ↔ ((disabled ≡ none) × MayWrite r mode u (admin_of r c u))
disabled_iff r c u mode none =
    (λ e. (refl, (with_mode_iff r c u mode).0 e), λ (e, may). (with_mode_iff r c u mode).1 may)
disabled_iff r c u mode (some t) =
    (λ e. absurd (ground (arith, e)), λ (e, may). absurd (ground (arith, e)))

muted_iff :
    (r : Reads) (c : Chat) (u : ℕ) (mode : ChatMode) (muted : Option ℕ)
    → ((unless_muted r c u mode muted).1 ≡ none)
      ↔ ((muted ≡ none) × (r.messaging_disable u ≡ none) × MayWrite r mode u (admin_of r c u))
muted_iff r c u mode none =
    let disabled = disabled_iff r c u mode (r.messaging_disable u) in
    (λ e. (refl, (disabled.0 e).0, (disabled.0 e).1), λ (e, able, may). disabled.1 (able, may))
muted_iff r c u mode (some t) =
    (λ e. absurd (ground (arith, e)), λ (e, able, may). absurd (ground (arith, e)))

post_unless_iff :
    (r : Reads) (m : Message) (c : Chat) (e : Option Error)
    → (is_posted (post_unless r m (c, e)).1 ≡ true) ↔ (e ≡ none)
unfolding post
post_unless_iff r m c none = (λ h. refl, λ h. refl)
post_unless_iff r m c (some e) = (λ h. absurd (ground (arith, h)), λ h. absurd (ground (arith, h)))

-- A message of a user is posted just where the user is not muted or disabled, and the mode of the chat
-- lets them write: in ALL_MUTED the host, in ADMINS_ONLY the host and the admins, and in FOLLOWERS_ONLY
-- who follows the host.
pub posted_iff :
    (r : Reads) (c : Chat) (m : Message)
    → (m.sender_id == system_sender_id) ≡ false
    → is_posted (send_message r c m).1 ≡ true
      ↔ (r.chat_mute m.sender_id ≡ none)
        × (r.messaging_disable m.sender_id ≡ none)
        × MayWrite r (mode_of r c) m.sender_id (admin_of r c m.sender_id)
unfolding send_message gates
posted_iff r c m user =
    let c' : Chat = record c {
      permission = (get_chat_permission r.up.database c.permission c.stream_id).0;
    } in
    let gated : Chat × Option Error =
      unless_muted r c' m.sender_id (mode_of r c) (r.chat_mute m.sender_id) in
    let posts = post_unless_iff r m gated.0 gated.1 in
    let muted = muted_iff r c' m.sender_id (mode_of r c) (r.chat_mute m.sender_id) in
    rw user ((λ h. muted.0 (posts.0 h), λ may. posts.1 (muted.1 may)))

-- In FOLLOWERS_ONLY, a host who does not follow themselves is refused in their own chat.
pub host_silenced :
    (r : Reads) (c : Chat) (m : Message)
    → (m.sender_id == system_sender_id) ≡ false
    → r.host ≡ some m.sender_id
    → r.chat_mute m.sender_id ≡ none
    → r.messaging_disable m.sender_id ≡ none
    → mode_of r c ≡ followers_only
    → r.is_following m.sender_id m.sender_id ≡ false
    → (send_message r c m).1 ≡ refused only_followers
unfolding send_message gates
host_silenced r c m user own free able mode alone =
    ground (arith, user, own, free, able, mode, alone)
