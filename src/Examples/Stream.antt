-- ===== src/Examples/Stream.antt =====
-- Live streams at concrete inputs: how they start and end, and what happens on their seats.
use live_server.Common.{
  ℕ, ◌+◌, ◌-◌, ◌*◌, ◌/◌, ◌≡◌, refl, true, false, none, some, List, [], ◌∷◌, arith, ◌==◌,
  if◌then◌else◌,
}
use live_server.Common.Store.{Store}
use live_server.Stream.Camera.{no_camera_keys, close_camera, gross_seconds, effective_seconds}
use live_server.Stream.Camera.Counted.{
  Toggle, toggled, off_spans, uncounted_seconds, effective_duration_refines,
}
use live_server.Stream.Keys.{LiveKeys, clear_live_stream_redis_keys}
use live_server.Stream.Table.{Row, store_streams, finished}
use live_server.Stream.End.{
  Request, Answers, Summary, end_live_stream, camera_closed, patch_of, summary_of,
}
use live_server.Stream.End.Outcomes.{saved_messages, audience_lost}
use live_server.Stream.End.Race.{end_claim, Reach, begin, next}
use live_server.Stream.Moderation.{moderation_patch}
use live_server.Stream.Moderation.Bans.{block_counts_camera_off}

-- A camera that is off for 100 s, and again for 30 s before the end.
abbrev toggles : List Toggle
toggles =
    record { is_camera_on = false; at = 10000 }
    ∷ record { is_camera_on = true; at = 110000 }
    ∷ record { is_camera_on = false; at = 170000 }
    ∷ []

effective_duration_refines_example :
    effective_seconds true (close_camera true (toggled no_camera_keys toggles) 200000) 0 200000
    ≡ gross_seconds 0 200000 - uncounted_seconds (off_spans none toggles 200000)
effective_duration_refines_example = effective_duration_refines toggles 0 200000

camera_run : gross_seconds 0 200000 - uncounted_seconds (off_spans none toggles 200000) ≡ 160
unfolding off_spans uncounted_seconds
camera_run = refl

-- A Sunday noon in India.
abbrev sunday_noon : ℕ
sunday_noon = 10 * 86400000 + 23400000

abbrev row : Row
row = record {
  id = 7;
  stream_id = 7;
  user_id = 1;
  playback_id = none;
  is_live = true;
  started_at = some 0;
  created_at = some 0;
  ended_at = none;
  effective_duration = 0;
  end_reason = none;
}

abbrev streams : Store Row
streams k = if k == 7 then some row else none

-- Two viewers, one message, and the camera off since 1000.
abbrev keys : LiveKeys
keys = record {
  active_stream_of = λ u. if u == 1 then some 7 else none;
  info_of = λ s. none;
  camera = λ s. record { off_at = some 1000; uncounted = 0 };
  history_of = λ s. 2 ∷ 3 ∷ [];
  chats_of = λ s. 50 ∷ [];
}

abbrev host_ends : Request
host_ends = record {
  id = 7;
  user_id = 1;
  reason = 72 ∷ [];
  now = 200000;
  redis_open = true;
  is_production = false;
}

abbrev answers : Answers
answers = record { won_points = λ u from to. 5; new_followers = λ u from to. 1 }

abbrev same : Store Row → Store Row
same st = st

abbrev ended_row : Row
ended_row = finished (patch_of host_ends row (camera_closed host_ends row keys)) row

abbrev the_summary : Summary
the_summary =
    summary_of answers host_ends row 61
      (clear_live_stream_redis_keys true (camera_closed host_ends row keys) 7 1 7)

audience_lost_example :
    (the_summary.total_audiences_count ≡ 0)
    × (saved_messages (end_live_stream store_streams answers host_ends streams keys same).3 ≡ [])
unfolding end_live_stream effective_seconds close_camera
audience_lost_example =
    audience_lost store_streams answers host_ends streams keys same ended_row the_summary refl

abbrev claimed_table : Store Row
claimed_table = (store_streams.claim streams 7 200000).0

abbrev claimed_twice : Store Row
claimed_twice = (store_streams.claim claimed_table 7 200500).0

-- The host and the monitor end the stream at the same moment.
abbrev both_end :
    Reach store_streams 7 streams (record { table = claimed_twice; wins = 1; moderated = false })
both_end = next (next begin (end_claim 7 200000 refl)) (end_claim 7 200500 refl)

block_counts_camera_off_example :
    (patch_of host_ends row (camera_closed host_ends row keys)).effective_duration
    ≡ (moderation_patch true keys row 200000).effective_duration - ((200000 - 1000) / 1000 - 60)
block_counts_camera_off_example =
    block_counts_camera_off host_ends keys row 1000 refl refl (omega arith)
