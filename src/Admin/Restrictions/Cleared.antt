-- ===== src/Admin/Restrictions/Cleared.antt =====
-- On src/routes/service/serviceAdmin.js. Restrictions that are refused, and a restriction that is cleared.
use live_server.Common.{
  ℕ, ◌≤◌, ◌<◌, ◌≡◌, refl, Bool, false, ◌&&◌, not, Option, none, some, is_some, List, [], ◌∷◌, arith,
  ◌==◌, leb, Bool-cases, inl, inr,
}
use live_server.Admin.Restrictions.{
  Restriction, State, is_active, get_active, clear_where, count_where, find_by_id,
  clear_restriction_by_id, apply_user_restriction, refused, Error, not_in_future, invalid_type,
  unmute_seats, emit_cleared, live_audio_mute, live_stream_start_ban,
}

-- A type that is none of the first four, a freeze of coins among them, is refused on every path, and the
-- table and the cache stay as they are: no video call ends by it.
pub freeze_refused :
    (redis_open has_access : Bool) (now : ℕ) (s : State) (id type : ℕ) (until : Option ℕ)
    → live_stream_start_ban < type
    → (e : Error) × (apply_user_restriction redis_open has_access now s id type until
        ≡ (s, refused e))
unfolding apply_user_restriction
freeze_refused redis_open has_access now s id type none h = (not_in_future, refl)
freeze_refused redis_open has_access now s id type (some until) h =
    elim (Bool-cases (leb until now)) [
      | inl late ↦ (not_in_future, ground (arith, late))
      | inr early ↦ (invalid_type, ground (arith, early, h))
    ]

count-find :
    (rows : List Restriction) (id : ℕ) (r : Restriction)
    → find_by_id id rows ≡ some r
    → r.cleared_at ≡ none
    → (count_where (λ o. o.id == id) rows == 0) ≡ false
count-find [] id r h cleared = absurd (ground (arith, h))
count-find (o ∷ rs) id r h cleared = elim (Bool-cases (o.id == id)) [
  | inl e ↦ ground (arith, e, h, cleared)
  | inr e ↦ ground (arith, e, count-find rs id r (ground (arith, h, e)) cleared)
]

active_after_clear :
    (rows : List Restriction) (now type id : ℕ) (other : Restriction)
    → get_active now type rows ≡ some other
    → (other.id == id) ≡ false
    → get_active now type (clear_where now (λ o. o.id == id) rows) ≡ some other
active_after_clear [] now type id other h apart = absurd (ground (arith, h))
active_after_clear (o ∷ rs) now type id other h apart =
    elim (Bool-cases ((o.type == type) && is_active now o)) [
      | inl hit ↦ ground (arith, h, hit, apart)
      | inr miss ↦ elim (Bool-cases (not (is_some o.cleared_at) && (o.id == id))) [
        | inl wiped ↦ ground (
          arith,
          miss,
          wiped,
          active_after_clear rs now type id other (ground (arith, h, miss)) apart,
        )
        | inr left ↦ ground (
          arith,
          miss,
          left,
          active_after_clear rs now type id other (ground (arith, h, miss)) apart,
        )
      ]
    ]

-- Clearing a LIVE_AUDIO_MUTE by its id unmutes the seats of the user and tells them that the restriction
-- is cleared also where that one is over and another LIVE_AUDIO_MUTE is, and stays, active.
pub expired_clear_unmutes :
    (redis_open : Bool) (now id : ℕ) (s : State) (old other : Restriction)
    → find_by_id id s.rows ≡ some old
    → old.type ≡ live_audio_mute
    → old.cleared_at ≡ none
    → old.restricted_until ≤ now
    → get_active now live_audio_mute s.rows ≡ some other
    → (other.id == id) ≡ false
    → let (s', done, effects) = clear_restriction_by_id redis_open now s id in
      (effects ≡ unmute_seats ∷ emit_cleared live_audio_mute ∷ [])
      × (get_active now live_audio_mute s'.rows ≡ some other)
unfolding clear_restriction_by_id
expired_clear_unmutes redis_open now id s old other found audio open_row over active apart =
    ground (
      arith,
      found,
      audio,
      count-find s.rows id old found open_row,
      active_after_clear s.rows now live_audio_mute id other active apart,
    )
