-- ===== src/Admin/Restrictions/Rows.antt =====
-- On src/routes/service/serviceAdmin.js. The rows of restrictions: what a query finds, and what a clear leaves.
use live_server.Common.{
  ℕ, ◌<◌, ◌≡◌, refl, ap, Bool, true, false, ◌&&◌, ◌||◌, not, none, some, is_some, List, [], ◌∷◌,
  ◌++◌, arith, ◌==◌, ==_refl, Bool-cases, inl, inr,
}
use live_server.Admin.Restrictions.{Restriction, is_active, get_active, clear_where, count_where}

-- Whether there is a row of a type that is not cleared, with that end.
pub has_row : List Restriction → ℕ → ℕ → Bool
has_row [] type until = false
has_row (r ∷ rs) type until =
    ((r.type == type) && not (is_some r.cleared_at) && (r.restricted_until == until))
    || has_row rs type until

pub has_row-get_active :
    (rows : List Restriction) (now type until : ℕ)
    → has_row rows type until ≡ true
    → now < until
    → is_some (get_active now type rows) ≡ true
unfolding has_row
has_row-get_active [] now type until h later = absurd (ground (arith, h))
has_row-get_active (r ∷ rs) now type until h later = elim (Bool-cases (has_row rs type until)) [
  | inl e ↦ ground (arith, has_row-get_active rs now type until e later)
  | inr e ↦ ground (arith, h, e, later)
]

pub get_active-has_row :
    (rows : List Restriction) (now type : ℕ) (r : Restriction)
    → get_active now type rows ≡ some r
    → (has_row rows type r.restricted_until ≡ true) × (r.cleared_at ≡ none)
unfolding has_row
get_active-has_row [] now type r h = absurd (ground (arith, h))
get_active-has_row (r' ∷ rs) now type r h =
    elim (Bool-cases ((r'.type == type) && is_active now r')) [
      | inl hit ↦ ground (arith, h, hit, ==_refl r.restricted_until)
      | inr miss ↦ ground (arith, get_active-has_row rs now type r (ground (arith, h, miss)))
    ]

pub clear_where-other :
    (rows : List Restriction) (now type until : ℕ) (p : Restriction → Bool)
    → ((r : Restriction) → (r.type == type) ≡ true → p r ≡ false)
    → has_row (clear_where now p rows) type until ≡ has_row rows type until
unfolding has_row
clear_where-other [] now type until p h = refl
clear_where-other (r ∷ rs) now type until p h = elim (Bool-cases (r.type == type)) [
  | inl e ↦ ground (arith, e, h r e, clear_where-other rs now type until p h)
  | inr e ↦ elim (Bool-cases (not (is_some r.cleared_at) && p r)) [
    | inl hit ↦ ground (arith, e, hit, clear_where-other rs now type until p h)
    | inr miss ↦ ground (arith, e, miss, clear_where-other rs now type until p h)
  ]
]

pub clear_where-none :
    (rows : List Restriction) (now : ℕ) (p : Restriction → Bool)
    → (count_where p rows == 0) ≡ true
    → clear_where now p rows ≡ rows
clear_where-none [] now p h = refl
clear_where-none (r ∷ rs) now p h = elim (Bool-cases (not (is_some r.cleared_at) && p r)) [
  | inl hit ↦ absurd (ground (arith, hit, h))
  | inr miss ↦ rw miss (ap (λ l. r ∷ l) (clear_where-none rs now p (ground (arith, miss, h))))
]

pub has_row-last :
    (rows : List Restriction) (r : Restriction) (type until : ℕ)
    → has_row (rows ++ r ∷ []) type until ≡ (
        has_row rows type until
        || ((r.type == type) && not (is_some r.cleared_at) && (r.restricted_until == until)))
unfolding has_row
has_row-last [] r type until = ground arith
has_row-last (r' ∷ rs) r type until = ground (arith, has_row-last rs r type until)
