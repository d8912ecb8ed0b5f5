-- ===== src/Stream/History/Selected.antt =====
-- On src/routes/service/serviceMessage.js. Which messages the history shows, and of whom.
use live_server.Common.{
  ℕ, ◌+◌, ◌≤◌, ◌≡◌, refl, Bool, true, false, some, List, [], ◌∷◌, map, length, All, arith, ◌==◌,
  ltb, Bool-cases, inl, inr,
}
use live_server.Stream.Chat.{system_sender_id, Message, Chat, Reads, Sender}
use live_server.Stream.History.{
  Filter, all, chat, room, passes_filter, after_clear, select, source_of, history_sender,
  get_messages, clear_chat,
}

length-map : (f : Message → Message × Sender) (ms : List Message) → length (map f ms) ≡ length ms
length-map f [] = refl
length-map f (m ∷ ms) = omega (arith, length-map f ms)

select-parts :
    (ms : List Message)
    → length (select (passes_filter chat) ms) + length (select (passes_filter room) ms)
      ≡ length (select (passes_filter all) ms)
select-parts [] = omega arith
select-parts (m ∷ ms) = elim (Bool-cases (m.sender_id == system_sender_id)) [
  | inl e ↦ ground (arith, e, select-parts ms)
  | inr e ↦ ground (arith, e, select-parts ms)
]

-- The messages of users and those of the system are together as many as all messages.
pub filters_partition :
    (r : Reads) (c : Chat)
    → length (get_messages r c chat false) + length (get_messages r c room false)
      ≡ length (get_messages r c all false)
unfolding get_messages
filters_partition r c =
    let source : List Message = select (after_clear c.cleared_at) (source_of c.messages c.rows) in
    let shown : Message → Message × Sender = λ m. (m, history_sender r m) in
    omega (
      arith,
      length-map shown (select (passes_filter chat) source),
      length-map shown (select (passes_filter room) source),
      length-map shown (select (passes_filter all) source),
      select-parts source,
    )

abbrev pub Until : ℕ → Message → Type 0
Until t m = m.created_at ≤ t

select-none : (t : ℕ) (ms : List Message) → All (Until t) ms → select (after_clear (some t)) ms ≡ []
select-none t [] h = refl
select-none t (m ∷ ms) h = elim (Bool-cases (ltb t m.created_at)) [
  | inl e ↦ absurd (ground (arith, e, h.0))
  | inr e ↦ rw e (select-none t ms h.1)
]

source-Until :
    (t : ℕ) (ms rows : List Message)
    → All (Until t) ms
    → All (Until t) rows
    → All (Until t) (source_of ms rows)
source-Until t [] rows h k = k
source-Until t (m ∷ ms) rows h k = h

-- After the host or an admin has cleared the chat, the history shows none of the messages that there were
-- by then, in the list or among the rows, with any filter.
pub cleared_history :
    (r : Reads) (c : Chat) (t : ℕ) (filter : Filter) (chats_only : Bool)
    → All (Until t) c.messages
    → All (Until t) c.rows
    → get_messages r (clear_chat true c t) filter chats_only ≡ []
unfolding get_messages clear_chat
cleared_history r c t filter chats_only h k =
    rw (select-none t (source_of c.messages c.rows) (source-Until t c.messages c.rows h k)) refl
