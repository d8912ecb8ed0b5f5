-- ===== src/Stream/Camera.antt =====
-- The camera of a host in src/routes/service/serviceLive.js: `handleCameraStateChangeService`, and the
-- same accounting at the end of a stream. A value of `Camera` is the two keys of one stream. Times are in
-- ms; a clock that runs backwards gives a negative number of seconds there and 0 here, neither over 60.
pub mod Counted
use live_server.Common.{
  ℕ, ◌+◌, ◌-◌, ◌/◌, Bool, true, false, not, Option, none, some, is_some, ltb, if◌then◌else◌,
}

pub record Camera : Type 0 where
  -- `stream:camera_off_at:<stream>`
  pub off_at : Option ℕ
  -- `stream:uncounted_seconds:<stream>`, where no key is 0
  pub uncounted : ℕ

abbrev pub no_camera_keys : Camera
no_camera_keys = record { off_at = none; uncounted = 0 }

-- `if (offSec > 60) incrBy(keyUncounted, offSec - 60)`
abbrev pub add_excess : ℕ → ℕ → ℕ
add_excess uncounted off_sec = if ltb 60 off_sec then uncounted + (off_sec - 60) else uncounted

-- The camera is on again, or the stream is over.
abbrev counted_on : Option ℕ → Camera → ℕ → Camera
counted_on none c now = c
counted_on (some off) c now = record {
  off_at = none;
  uncounted = add_excess c.uncounted ((now - off) / 1000);
}

abbrev switched_off : Camera → ℕ → Camera
switched_off c now = if not (is_some c.off_at) then record c { off_at = some now } else c

-- The early return is for no open Redis; a missing id is the caller's.
unfoldable pub handle_camera_state_change : Bool → Camera → Bool → ℕ → Camera
handle_camera_state_change redis_open c is_camera_on now =
    if not redis_open
    then c
    else if not is_camera_on
    then switched_off c now
    else counted_on c.off_at c now

-- The block of `endLiveStreamService` before it computes the duration.
unfoldable pub close_camera : Bool → Camera → ℕ → Camera
close_camera redis_open c ended_at = if redis_open then counted_on c.off_at c ended_at else c

-- `grossDurationSeconds`
abbrev pub gross_seconds : ℕ → ℕ → ℕ
gross_seconds started_at ended_at = (ended_at - started_at) / 1000

-- `effectiveDurationSeconds`, from the keys as that block leaves them.
unfoldable pub effective_seconds : Bool → Camera → ℕ → ℕ → ℕ
effective_seconds redis_open c started_at ended_at =
    gross_seconds started_at ended_at - (if redis_open then c.uncounted else 0)
