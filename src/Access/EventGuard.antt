-- ===== src/Access/EventGuard.antt =====
-- `socketEventGuard` of src/socket/eventGuard.js: what one socket's guard does with one packet. The
-- reports are left out.
pub mod Passed
use live_server.Common.{
  ℕ, Bool, true, false, ◌&&◌, not, Option, none, some, ◌==◌, if◌then◌else◌, is_some,
}
use live_server.Common.Store.{Store, put}
use live_server.Utils.TokenBucket.{Bucket, take_token}
use live_server.Access.Payload.{
  Event, handled, stream_heartbeat, join_stream, leave_stream, clear_chat, send_gift,
  send_lucky_gift, send_message, Field, Value, payload_problem,
}

-- off | log | enforce
pub data Mode : Type 0 where
  off log enforce : Mode

abbrev pub enforces : Mode → Bool
enforces off = false
enforces log = false
enforces enforce = true

abbrev is_off : Mode → Bool
is_off off = true
is_off log = false
is_off enforce = false

-- RATE_CLASSES
pub data RateClass : Type 0 where
  gift chat heartbeat join default : RateClass

abbrev pub class_code : RateClass → ℕ
class_code gift = 0
class_code chat = 1
class_code heartbeat = 2
class_code join = 3
class_code default = 4

unfoldable pub capacity : RateClass → ℕ
capacity gift = 40
capacity chat = 10
capacity heartbeat = 6
capacity join = 10
capacity default = 60

-- In thousandths of a token per second.
unfoldable pub refill_rate : RateClass → ℕ
refill_rate gift = 10000
refill_rate chat = 2000
refill_rate heartbeat = 1000
refill_rate join = 1000
refill_rate default = 20000

unfoldable pub class_of : Event → RateClass
class_of send_gift = gift
class_of send_lucky_gift = gift
class_of send_message = chat
class_of clear_chat = chat
class_of stream_heartbeat = heartbeat
class_of join_stream = join
class_of leave_stream = join
class_of _ = default

-- A packet: `payload` is `none` if it is no plain object; `has_ack` if its last item is a function.
pub record Packet : Type 0 where
  pub event : Event
  pub payload : Option (Field → Value)
  pub has_ack : Bool

pub data Code : Type 0 where
  invalid_payload rate_limited : Code

-- `next()`, or a drop, with the code that the ack callback gets if there is one.
pub data Verdict : Type 0 where
  next : Verdict
  drop : Option Code → Verdict

pub reject : Packet → Code → Verdict
reject p code = drop (if p.has_ack then some code else none)

-- The last part, for an object.
check_fields : Mode → Packet → (Field → Value) → Verdict
check_fields guard_mode p payload =
    if not (is_off guard_mode) && is_some (payload_problem p.event payload) && enforces guard_mode
    then reject p invalid_payload
    else next

abbrev fields_part : Mode → Packet → Option (Field → Value) → Verdict
fields_part guard_mode p none = next
fields_part guard_mode p (some payload) =
    if handled p.event then check_fields guard_mode p payload else next

after_token : Mode → Mode → Packet → Store Bucket → Bucket × Bool → Store Bucket × Verdict
unfolding reject check_fields
after_token rate_mode guard_mode p buckets (b, allowed) = (
  put buckets (class_code (class_of p.event)) b,
  if not allowed && enforces rate_mode
      then reject p rate_limited
      else fields_part guard_mode p p.payload,
)

-- `buckets` are those of the socket, by class.
unfoldable pub socket_event_guard : Mode → Mode → Store Bucket → Packet → ℕ → Store Bucket × Verdict
unfolding after_token reject check_fields
socket_event_guard rate_mode guard_mode buckets p now =
    let c = class_of p.event in
    if handled p.event && not (is_some p.payload)
    then (buckets, reject p invalid_payload)
    else if is_off rate_mode
    then (buckets, fields_part guard_mode p p.payload)
    else after_token rate_mode guard_mode p buckets
        (take_token (capacity c) (refill_rate c) (buckets (class_code c)) now)
