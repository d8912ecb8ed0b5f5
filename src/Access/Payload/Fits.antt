-- ===== src/Access/Payload/Fits.antt =====
-- On src/socket/eventGuard.js. What a payload without problems is.
use live_server.Common.{
  ℕ, ◌≤◌, ◌≡◌, ◌↔◌, ◌⊎◌, inl, inr, refl, false, none, List, [], ◌∷◌, arith, All, Option-cases,
}
use live_server.Access.Payload.{
  Event, Field, Value, nothing, not_natural, str, natural, boolean, FieldType, id_type, bool_type,
  str_type, int_type, Rule, schema, fault, first_fault, payload_problem,
}

-- The values of a type, that is, what a handler may rely on.
abbrev HasType : FieldType → ℕ → Value → Type 0
HasType id_type limit (str n) = (1 ≤ n) × (n ≤ limit)
HasType id_type limit (natural n) = Unit
HasType id_type limit not_natural = Unit
HasType str_type limit (str n) = (1 ≤ n) × (n ≤ limit)
HasType bool_type limit (boolean b) = Unit
HasType int_type limit (natural n) = (1 ≤ n) × (n ≤ limit)
HasType _ limit _ = ⊥

abbrev pub IsAbsent : Value → Type 0
IsAbsent v = (v ≡ nothing) ⊎ (v ≡ str 0)

-- A field is absent, if it is optional, or has its type.
abbrev pub Fits : (Field → Value) → Rule → Type 0
Fits payload r =
    (IsAbsent (payload r.field) × (r.required ≡ false)) ⊎ HasType r.type r.limit (payload r.field)

fault-none :
    (r : Rule) (v : Value)
    → fault r v ≡ none
    → (IsAbsent v × (r.required ≡ false)) ⊎ HasType r.type r.limit v
unfolding payload_problem
fault-none r v h = ground arith

fits_no_fault :
    (r : Rule) (v : Value)
    → (IsAbsent v × (r.required ≡ false)) ⊎ HasType r.type r.limit v
    → fault r v ≡ none
unfolding payload_problem
fits_no_fault r v h = ground arith

first_fault-none :
    (rs : List Rule) (payload : Field → Value)
    → first_fault rs payload ≡ none
    → All (Fits payload) rs
unfolding payload_problem
first_fault-none [] payload h = tt
first_fault-none (r ∷ rs) payload h = elim (Option-cases (fault r (payload r.field))) [
  | inl e ↦ (fault-none r (payload r.field) e, first_fault-none rs payload (ground arith))
  | inr (why, e) ↦ ground arith
]

no_first_fault :
    (rs : List Rule) (payload : Field → Value)
    → All (Fits payload) rs
    → first_fault rs payload ≡ none
unfolding payload_problem
no_first_fault [] payload h = refl
no_first_fault (r ∷ rs) payload h =
    ground (arith, fits_no_fault r (payload r.field) h.0, no_first_fault rs payload h.1)

-- A payload has no problem exactly if each field that the event's schema lists is absent (undefined,
-- null or the empty string) and optional, or has its type: an id is a string of 1 to 100 characters or
-- a finite number, a text is a string of 1 to its limit, a flag is a Boolean, and a count is an
-- integer from 1 to its limit.
pub payload_problem-none_iff :
    (event : Event) (payload : Field → Value)
    → (payload_problem event payload ≡ none) ↔ All (Fits payload) (schema event)
unfolding payload_problem
payload_problem-none_iff event payload =
    (first_fault-none (schema event) payload, no_first_fault (schema event) payload)
