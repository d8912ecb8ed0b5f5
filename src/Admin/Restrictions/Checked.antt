-- ===== src/Admin/Restrictions/Checked.antt =====
-- On src/routes/service/serviceAdmin.js. The check by the cache says what the table says.
use live_server.Common.{ℕ, ◌≡◌, Bool, true, ◌&&◌, not, Option, none, some, is_some, List, [], ◌∷◌}
use live_server.Common.Store.{Store, empty_store}
use live_server.Admin.Restrictions.{
  Restriction, Cached, State, is_user_restricted_fast, apply_user_restriction,
  clear_restrictions_by_type,
}
use live_server.Admin.Restrictions.Rows.{has_row}

-- What the cache has of a type is in the table.
backed : List Restriction → ℕ → Option Cached → Bool
backed rows type none = true
backed rows type (some e) =
    not (is_some e.restriction.cleared_at) && has_row rows type e.restriction.restricted_until

Coherent : State → Type 0
Coherent s = (type : ℕ) → backed s.rows type (s.cache type) ≡ true

-- What is done to a user: a restriction is applied, those of a type are cleared, or a check is made.
pub data Op : Type 0 where
  apply : Bool → ℕ → ℕ → Option ℕ → Op
  clear check : ℕ → Op

pub step : ℕ → State → Op → State
step now s (apply has_access id type until) =
    (apply_user_restriction true has_access now s id type until).0
step now s (clear type) = (clear_restrictions_by_type true now s type).0
step now s (check type) = (is_user_restricted_fast true now s type).0

pub run : State → List (ℕ × Op) → State
run s [] = s
run s ((now, op) ∷ ops) = run (step now s op) ops

-- A user without restrictions.
abbrev pub unrestricted : State
unrestricted = record { rows = []; cache = empty_store }
