-- ===== src/Examples/Admin.antt =====
-- Restrictions of a user at concrete inputs.
use live_server.Common.{ℕ, ◌≡◌, refl, true, some, none, List, [], ◌∷◌, arith}
use live_server.Common.Store.{empty_store}
use live_server.Admin.Restrictions.{
  Restriction, State, get_active, clear_restriction_by_id, live_audio_mute, live_chat_mute,
  unmute_seats, emit_cleared,
}
use live_server.Admin.Restrictions.Checked.{Op, apply, clear, check}
use live_server.Admin.Restrictions.Cleared.{expired_clear_unmutes}

-- Two mutes, of which the first is over when it is checked, and one of them is cleared.
abbrev ops : List (ℕ × Op)
ops =
    (1000, apply true 1 live_audio_mute (some 5000))
    ∷ (2000, apply true 2 live_chat_mute (some 90000))
    ∷ (6000, check live_audio_mute)
    ∷ (7000, clear live_chat_mute)
    ∷ []

abbrev old : Restriction
old = record { id = 1; type = 1; restricted_until = 5000; cleared_at = none }

abbrev newer : Restriction
newer = record { id = 2; type = 1; restricted_until = 90000; cleared_at = none }

abbrev muted_again : State
muted_again = record { rows = old ∷ newer ∷ []; cache = empty_store }

expired_clear_unmutes_example :
    let (s', done, effects) = clear_restriction_by_id true 6000 muted_again 1 in
    (effects ≡ unmute_seats ∷ emit_cleared live_audio_mute ∷ [])
    × (get_active 6000 live_audio_mute s'.rows ≡ some newer)
expired_clear_unmutes_example =
    expired_clear_unmutes true 6000 1 muted_again old newer refl refl refl (omega arith) refl refl
