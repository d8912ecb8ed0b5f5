-- ===== src/Access/Payload.antt =====
-- The payload checks of src/socket/eventGuard.js: the events with their fields, and the first problem
-- of a payload.
pub mod Fits
use live_server.Common.{
  ℕ, Bool, true, false, ◌||◌, not, ◌&&◌, Option, none, some, List, [], ◌∷◌, ltb, leb, if◌then◌else◌,
}

-- HANDLED_EVENTS, and any other name.
pub data Event : Type 0 where
  stream_heartbeat join_stream leave_stream invite_to_sheet decline_sheet_invite : Event
  accept_sheet_invite toggle_mic_permission set_chat_permission request_to_join_sheet : Event
  accept_sheet_request reject_sheet_request toggle_sheet_mute toggle_self_mute : Event
  remove_from_sheet toggle_camera_state leave_sheet clear_chat send_gift : Event
  send_lucky_gift send_message network_quality : Event
  other_event : Event

abbrev pub handled : Event → Bool
handled other_event = false
handled _ = true

pub data Field : Type 0 where
  stream_id target_user_id mute_state is_camera_on mic_permission_required mode : Field
  gift_id receiver_id count combo_count client_tx_id text quality session_id : Field

-- A JavaScript value: undefined or null, a string by its length, a number (not finite, a fraction or
-- below 0, or a natural number), a Boolean, or anything else.
pub data Value : Type 0 where
  nothing not_finite not_natural thing : Value
  str : ℕ → Value
  natural : ℕ → Value
  boolean : Bool → Value

pub data FieldType : Type 0 where
  id_type bool_type : FieldType
  str_type : FieldType
  int_type : FieldType

-- [type, required, max] of a field; `max` of a Boolean is not used.
pub record Rule : Type 0 where
  pub field : Field
  pub type : FieldType
  pub required : Bool
  pub limit : ℕ

abbrev id_rule : Bool → Field → Rule
id_rule required f = record { field = f; type = id_type; required = required; limit = 100 }

abbrev bool_rule : Field → Rule
bool_rule f = record { field = f; type = bool_type; required = false; limit = 0 }

abbrev int_rule : ℕ → Field → Rule
int_rule limit f = record { field = f; type = int_type; required = false; limit = limit }

abbrev str_rule : Bool → ℕ → Field → Rule
str_rule required limit f = record {
  field = f;
  type = str_type;
  required = required;
  limit = limit;
}

abbrev stream_only : List Rule
stream_only = id_rule true stream_id ∷ []

abbrev stream_and_target : List Rule
stream_and_target = id_rule true stream_id ∷ id_rule true target_user_id ∷ []

-- SCHEMAS
unfoldable pub schema : Event → List Rule
schema stream_heartbeat = stream_only
schema join_stream = stream_only
schema leave_stream = stream_only
schema decline_sheet_invite = stream_only
schema accept_sheet_invite = stream_only
schema request_to_join_sheet = stream_only
schema leave_sheet = stream_only
schema clear_chat = stream_only
schema invite_to_sheet = stream_and_target
schema accept_sheet_request = stream_and_target
schema reject_sheet_request = stream_and_target
schema remove_from_sheet = stream_and_target
schema toggle_sheet_mute =
    id_rule true stream_id ∷ id_rule true target_user_id ∷ bool_rule mute_state ∷ []
schema toggle_self_mute = id_rule true stream_id ∷ bool_rule mute_state ∷ []
schema toggle_camera_state = id_rule true stream_id ∷ bool_rule is_camera_on ∷ []
schema toggle_mic_permission = id_rule true stream_id ∷ bool_rule mic_permission_required ∷ []
schema set_chat_permission = id_rule true stream_id ∷ str_rule false 32 mode ∷ []
schema send_gift =
    id_rule true stream_id
    ∷ id_rule true gift_id
    ∷ id_rule false receiver_id
    ∷ id_rule false target_user_id
    ∷ int_rule 10000 count
    ∷ int_rule 100000 combo_count
    ∷ str_rule false 100 client_tx_id
    ∷ []
schema send_lucky_gift =
    id_rule true stream_id
    ∷ id_rule true gift_id
    ∷ id_rule false receiver_id
    ∷ int_rule 100000 combo_count
    ∷ str_rule false 100 client_tx_id
    ∷ []
schema send_message = id_rule true receiver_id ∷ str_rule true 1000 text ∷ []
schema network_quality =
    str_rule true 16 quality ∷ id_rule false session_id ∷ id_rule false stream_id ∷ []
schema other_event = []

-- What is wrong with a field.
pub data Fault : Type 0 where
  missing type_fault too_long range : Fault

id_fault : Value → ℕ → Option Fault
id_fault (str n) limit = if leb n limit then none else some type_fault
id_fault (natural n) limit = none
id_fault not_natural limit = none
id_fault _ limit = some type_fault

str_fault : Value → ℕ → Option Fault
str_fault (str n) limit = if ltb limit n then some too_long else none
str_fault _ limit = some type_fault

bool_fault : Value → Option Fault
bool_fault (boolean b) = none
bool_fault _ = some type_fault

int_fault : Value → ℕ → Option Fault
int_fault (natural n) limit = if ltb n 1 || ltb limit n then some range else none
int_fault _ limit = some range

typed_fault : FieldType → Value → ℕ → Option Fault
typed_fault id_type v limit = id_fault v limit
typed_fault str_type v limit = str_fault v limit
typed_fault bool_type v limit = bool_fault v
typed_fault int_type v limit = int_fault v limit

-- `v === undefined || v === null || v === ""`
abbrev absent : Value → Bool
absent nothing = true
absent (str ℕ.zero) = true
absent _ = false

fault : Rule → Value → Option Fault
unfolding typed_fault id_fault str_fault bool_fault int_fault
fault r v =
    if absent v then (if r.required then some missing else none) else typed_fault r.type v r.limit

first_fault : List Rule → (Field → Value) → Option (Field × Fault)
unfolding fault
first_fault [] payload = none
first_fault (r ∷ rs) payload =
    let rest = first_fault rs payload in
    elim (fault r (payload r.field)) [ none ↦ rest | some why ↦ some (r.field, why) ]

-- `payloadProblem`
unfoldable pub payload_problem : Event → (Field → Value) → Option (Field × Fault)
unfolding first_fault
payload_problem event payload = first_fault (schema event) payload
