-- ===== src/Stream/End.antt =====
-- `endLiveStreamService` of src/routes/service/serviceLive.js. `between` is what other requests do to
-- the table between the read of the row and the conditional update that claims the end.
pub mod Race
pub mod Outcomes
use live_server.Common.{
  ℕ, zero, suc, ◌+◌, Bool, true, false, ◌&&◌, not, Option, none, some, or_else, List, [], ◌∷◌, ◌++◌,
  length, ◌==◌, if◌then◌else◌, is_some,
}
use live_server.Stream.Duration.{Char, format_duration}
use live_server.Stream.Camera.{Camera, close_camera, effective_seconds}
use live_server.Stream.Table.{Row, EndPatch, StreamTable}
use live_server.Stream.Keys.{Info, LiveKeys, clear_live_stream_redis_keys}

pub record Request : Type 0 where
  pub id : ℕ
  pub user_id : ℕ
  pub reason : List ℕ
  -- the time of the end, and the server's settings
  pub now : ℕ
  pub redis_open : Bool
  pub is_production : Bool

-- What the database says of the time between the start and the end: the points won, and the new
-- followers; 0 where a query fails.
pub record Answers : Type 0 where
  pub won_points : ℕ → ℕ → ℕ → ℕ
  pub new_followers : ℕ → ℕ → ℕ → ℕ

pub record Summary : Type 0 where
  pub stream_id : ℕ
  pub host_id : ℕ
  pub duration_seconds : ℕ
  pub duration_formatted : List Char
  pub won_points : ℕ
  pub new_followers_count : ℕ
  pub total_audiences_count : ℕ

pub data Effect : Type 0 where
  stop_egress check_hls_egress publish_offline close_livekit_room : ℕ → Effect
  -- `liveMessage.createMany`
  save_messages : List ℕ → Effect

pub data EndResult : Type 0 where
  throws_not_found throws_unauthorized : EndResult
  -- the markers of a go-live whose row is not there yet are dropped
  redis_abort : Info → Summary → EndResult
  already_ended : Row → EndResult
  ended : Row → Summary → EndResult

abbrev take {ℓ} : {A : Type ℓ} → ℕ → List A → List A
take zero xs = []
take (suc n) [] = []
take (suc n) (x ∷ xs) = x ∷ take n xs

-- "UNKNOWN"
abbrev unknown : List ℕ
unknown = 85 ∷ 78 ∷ 75 ∷ 78 ∷ 79 ∷ 87 ∷ 78 ∷ []

-- `String(reason || "UNKNOWN").slice(0, 64)`
abbrev pub reason_text : List ℕ → List ℕ
reason_text [] = unknown
reason_text (c ∷ cs) = take 64 (c ∷ cs)

-- `stream.startedAt || stream.createdAt || endedAt`
abbrev pub start_of : Row → ℕ → ℕ
start_of r now = or_else r.started_at (or_else r.created_at now)

abbrev with_camera : ℕ → Camera → LiveKeys → LiveKeys
with_camera sid c k = record k { camera = λ i. if i == sid then c else k.camera i }

-- The camera's share, closed at the end.
abbrev pub camera_closed : Request → Row → LiveKeys → LiveKeys
camera_closed q r k =
    with_camera r.stream_id (close_camera q.redis_open (k.camera r.stream_id) q.now) k

abbrev pub patch_of : Request → Row → LiveKeys → EndPatch
patch_of q r k = record {
  ended_at = q.now;
  effective_duration =
      effective_seconds q.redis_open (k.camera r.stream_id) (start_of r q.now) q.now;
  end_reason = reason_text q.reason;
}

-- `sMembers` and `lRange` fail where Redis is not open, and the failure is only logged.
abbrev pub summary_of : Answers → Request → Row → ℕ → LiveKeys → Summary
summary_of a q r seconds k = record {
  stream_id = r.stream_id;
  host_id = r.user_id;
  duration_seconds = seconds;
  duration_formatted = format_duration seconds;
  won_points = a.won_points r.user_id (start_of r q.now) q.now;
  new_followers_count = a.new_followers r.user_id (start_of r q.now) q.now;
  total_audiences_count = if q.redis_open then length (k.history_of r.stream_id) else 0;
}

abbrev batch_sync : List ℕ → List Effect
batch_sync [] = []
batch_sync (c ∷ cs) = save_messages (c ∷ cs) ∷ []

abbrev stop_recording : Bool → Option ℕ → List Effect
stop_recording is_production none = []
stop_recording is_production (some p) = if is_production then stop_egress p ∷ [] else []

abbrev end_effects : Request → Row → LiveKeys → List Effect
end_effects q r k =
    stop_recording q.is_production r.playback_id
    ++ ((if q.redis_open then check_hls_egress r.stream_id ∷ [] else [])
        ++ (publish_offline r.user_id
            ∷ (batch_sync (if q.redis_open then k.chats_of r.stream_id else [])
                ++ close_livekit_room r.stream_id ∷ [])))

abbrev no_summary : ℕ → ℕ → Summary
no_summary sid host = record {
  stream_id = sid;
  host_id = host;
  duration_seconds = 0;
  duration_formatted = format_duration 0;
  won_points = 0;
  new_followers_count = 0;
  total_audiences_count = 0;
}

module _ (t : StreamTable) (a : Answers) where
  open t use {State, find_first, find_unique, claim, update}

  refuse_unless_cached :
      Request → State → LiveKeys → Option Info → State × LiveKeys × EndResult × List Effect
  refuse_unless_cached q st k none = (st, k, throws_not_found, [])
  refuse_unless_cached q st k (some i) =
      let sid = or_else i.stream_id (or_else i.id q.id) in
      if i.user_id == q.user_id
      then (
        st,
        clear_live_stream_redis_keys q.redis_open k sid q.user_id (or_else i.id q.id),
        redis_abort i (no_summary sid q.user_id),
        close_livekit_room sid ∷ publish_offline q.user_id ∷ [],
      )
      else (st, k, throws_not_found, [])

  -- The losers of the claim.
  lose : Request → Row → State → LiveKeys → State × LiveKeys × EndResult × List Effect
  lose q r st k = (
    st,
    clear_live_stream_redis_keys q.redis_open k r.stream_id q.user_id r.id,
    already_ended (if r.is_live then or_else (find_unique st r.id) r else r),
    [],
  )

  -- The winner; the row that the last update returns is as it is then.
  win : Request → Row → State → LiveKeys → State × LiveKeys × EndResult × List Effect
  win q r st k =
      let counted = camera_closed q r k in
      let patch = patch_of q r counted in
      let st' = update st r.id patch in
      let k' = clear_live_stream_redis_keys q.redis_open counted r.stream_id q.user_id r.id in
      (
        st',
        k',
        ended (or_else (find_unique st' r.id) r) (summary_of a q r patch.effective_duration k'),
        end_effects q r k',
      )

  by_claim : Request → Row → State × ℕ → LiveKeys → State × LiveKeys × EndResult × List Effect
  by_claim q r (st, count) k = if count == 0 then lose q r st k else win q r st k

  end_read :
      Request
      → State
      → LiveKeys
      → (State → State)
      → Option Row
      → State × LiveKeys × EndResult × List Effect
  end_read q st k between none =
      refuse_unless_cached q st k (if q.redis_open then k.info_of q.id else none)
  end_read q st k between (some r) =
      if not (r.user_id == q.user_id)
      then (st, k, throws_unauthorized, [])
      else by_claim q r (if r.is_live then claim (between st) r.id q.now else (between st, 0)) k

  unfoldable pub end_live_stream :
      Request → State → LiveKeys → (State → State) → State × LiveKeys × EndResult × List Effect
  unfolding refuse_unless_cached lose win by_claim end_read
  end_live_stream q st k between = end_read q st k between (find_first st q.id)
