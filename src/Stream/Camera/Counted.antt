-- ===== src/Stream/Camera/Counted.antt =====
-- On src/routes/service/serviceLive.js. What the counters of the camera mean: a specification by spans of
-- time without camera, which the two Redis keys implement.
use live_server.Common.{
  ℕ, ◌+◌, ◌-◌, ◌/◌, ◌≡◌, Bool, true, Option, none, some, List, [], ◌∷◌, arith, if◌then◌else◌,
}
use live_server.Stream.Camera.{
  Camera, no_camera_keys, add_excess, handle_camera_state_change, close_camera, gross_seconds,
  effective_seconds,
}

-- A `toggle_camera_state` at a time.
pub record Toggle : Type 0 where
  pub is_camera_on : Bool
  pub at : ℕ

-- The spans without camera, in seconds: each starts when a toggle turns a camera off that is on, and
-- ends when a toggle turns it on again, or with the stream.
unfoldable pub off_spans : Option ℕ → List Toggle → ℕ → List ℕ
off_spans none [] ended = []
off_spans (some off) [] ended = (ended - off) / 1000 ∷ []
off_spans none (t ∷ ts) ended = off_spans (if t.is_camera_on then none else some t.at) ts ended
off_spans (some off) (t ∷ ts) ended =
    let later = off_spans none ts ended in
    let longer = off_spans (some off) ts ended in
    if t.is_camera_on then (t.at - off) / 1000 ∷ later else longer

-- A minute of each span is free.
unfoldable pub uncounted_seconds : List ℕ → ℕ
uncounted_seconds [] = 0
uncounted_seconds (s ∷ ss) = (s - 60) + uncounted_seconds ss

abbrev pub toggled : Camera → List Toggle → Camera
toggled c [] = c
toggled c (t ∷ ts) = toggled (handle_camera_state_change true c t.is_camera_on t.at) ts

abbrev keys : Option ℕ → ℕ → Camera
keys off u = record { off_at = off; uncounted = u }

toggled-uncounted :
    (ts : List Toggle) (off : Option ℕ) (u ended : ℕ)
    → (close_camera true (toggled (keys off u) ts) ended).uncounted
      ≡ u + uncounted_seconds (off_spans off ts ended)
unfolding off_spans uncounted_seconds close_camera handle_camera_state_change
toggled-uncounted [] none u ended = omega arith
toggled-uncounted [] (some off) u ended = ground arith
toggled-uncounted (t ∷ ts) none u ended =
    ground (arith, toggled-uncounted ts none u ended, toggled-uncounted ts (some t.at) u ended)
toggled-uncounted (t ∷ ts) (some off) u ended = ground (
  arith,
  toggled-uncounted ts none (add_excess u ((t.at - off) / 1000)) ended,
  toggled-uncounted ts (some off) u ended,
)

-- With Redis open, whatever the host toggles between the start and the end of a stream, its effective
-- duration is its whole duration less, for each span without camera, what of it exceeds a minute.
pub effective_duration_refines :
    (ts : List Toggle) (started ended : ℕ)
    → effective_seconds true (close_camera true (toggled no_camera_keys ts) ended) started ended
      ≡ gross_seconds started ended - uncounted_seconds (off_spans none ts ended)
unfolding effective_seconds
effective_duration_refines ts started ended = ground (arith, toggled-uncounted ts none 0 ended)
