-- ===== src/Stream/History.antt =====
-- getMessagesService of src/routes/service/serviceMessage.js, and the clear_chat event of
-- src/routes/service/socket-live-service.js.
pub mod Selected
use live_server.Common.{
  ℕ, Bool, true, false, not, Option, none, some, List, [], ◌∷◌, map, ◌==◌, ltb, if◌then◌else◌,
}
use live_server.Stream.Chat.{
  system_sender_id, Message, User, Chat, Reads, Person, Sender, person, system, unknown,
}

-- The filter of a request, with `chatsOnly`.
pub data Filter : Type 0 where
  all chat room : Filter

abbrev effective_filter : Filter → Bool → Filter
effective_filter all chats_only = if chats_only then chat else all
effective_filter chat chats_only = chat
effective_filter room chats_only = room

abbrev pub passes_filter : Filter → Message → Bool
passes_filter all m = true
passes_filter chat m = not (m.sender_id == system_sender_id)
passes_filter room m = m.sender_id == system_sender_id

abbrev pub after_clear : Option ℕ → Message → Bool
after_clear none m = true
after_clear (some t) m = ltb t m.created_at

abbrev pub select : (Message → Bool) → List Message → List Message
select p [] = []
select p (m ∷ ms) = if p m then m ∷ select p ms else select p ms

-- The list, or the rows where it is empty.
abbrev pub source_of : List Message → List Message → List Message
source_of [] rows = rows
source_of (m ∷ ms) rows = m ∷ ms

abbrev history_person : Reads → ℕ → User → Bool → Person
history_person r u p stealth = record {
  id = if stealth then none else some u;
  public_id = if stealth then some (r.fake_public_id u) else p.public_id;
  wealth_level = p.wealth_level;
  is_mystery = stealth;
}

abbrev history_system : Reads → Option ℕ → Sender
history_system r none = system
history_system r (some u) = elim (r.user u) [
  | none ↦ system
  | some p ↦ person (history_person r u p false)
]

-- The sender in the history: the user that a message of the system is about is not hidden.
unfoldable pub history_sender : Reads → Message → Sender
history_sender r m =
    if m.sender_id == system_sender_id
    then history_system r m.reply_to_user_id
    else elim (r.user m.sender_id) [
      | none ↦ unknown
      | some p ↦ person (history_person r m.sender_id p p.is_stealth)
    ]

unfoldable pub get_messages : Reads → Chat → Filter → Bool → List (Message × Sender)
get_messages r c filter chats_only =
    map (λ m. (m, history_sender r m))
      (select (passes_filter (effective_filter filter chats_only))
        (select (after_clear c.cleared_at) (source_of c.messages c.rows)))

-- The clear_chat event, of a host or an admin.
unfoldable pub clear_chat : Bool → Chat → ℕ → Chat
clear_chat is_authorized c now = if is_authorized then record c { cleared_at = some now } else c
