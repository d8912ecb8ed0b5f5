-- ===== src/Stream/Moderation/Bans.antt =====
-- On src/routes/service/serviceLive.js. What moderation does to a stream and to its host.
use live_server.Common.{ℕ, ◌+◌, ◌-◌, ◌*◌, ◌/◌, ◌≤◌, ◌<◌, ◌≡◌, Bool, true, some, arith}
use live_server.Stream.Camera.{close_camera, effective_seconds}
use live_server.Stream.Keys.{LiveKeys}
use live_server.Stream.Table.{Row, StreamTable, finished}
use live_server.Stream.End.{Request, camera_closed, patch_of}
use live_server.Stream.Moderation.{
  Check, block, blocked, ban_hours, moderation_patch, verify_stream_frame, hour_ms,
}

-- A host's bans from the first on do not get shorter, and each is of 1 to 72 hours.
pub ban_hours_mono :
    (n m : ℕ) → 1 ≤ n → n ≤ m → (ban_hours n ≤ ban_hours m) × (1 ≤ ban_hours n) × (ban_hours m ≤ 72)
unfolding ban_hours
ban_hours_mono n m a b = ground arith

module _ (t : StreamTable) where
  open t use {State, find_unique, update}

  -- A frame of a live stream that the image service says to block ends the stream, whoever has ended it
  -- meanwhile: the row gets this end, and the host a ban whose length is that of their next ban.
  pub block_ends :
      (redis_open : Bool) (c : Check) (previous now : ℕ) (st : State) (k : LiveKeys)
      (between : State → State) (r r' : Row)
      → find_unique st r.id ≡ some r
      → r.is_live ≡ true
      → find_unique (between st) r.id ≡ some r'
      → c.is_violation ≡ true
      → c.action ≡ block
      → let (st', k', result, effects) =
          verify_stream_frame t redis_open r.id c (some previous) now st k between in
        (find_unique st' r.id ≡ some (finished (moderation_patch redis_open k r now) r'))
        × (result
            ≡ blocked (record {
              hours = ban_hours (previous + 1);
              number = previous + 1;
              suspended_until = now + ban_hours (previous + 1) * hour_ms;
            }))
  unfolding verify_stream_frame
  block_ends redis_open c previous now st k between r r' e is_live e' bad act = (
    ground (arith, t.find-update (between st) r.id (moderation_patch redis_open k r now) r.id),
    ground arith,
  )

-- With Redis open, a stream whose camera has been off for more than a minute when moderation blocks it is
-- recorded with a duration that counts that time: the end by its owner at the same moment takes the time
-- beyond the minute off.
pub block_counts_camera_off :
    (q : Request) (k : LiveKeys) (r : Row) (off : ℕ)
    → q.redis_open ≡ true
    → (k.camera r.stream_id).off_at ≡ some off
    → 60 < (q.now - off) / 1000
    → (patch_of q r (camera_closed q r k)).effective_duration
      ≡ (moderation_patch true k r q.now).effective_duration - ((q.now - off) / 1000 - 60)
unfolding moderation_patch effective_seconds close_camera
block_counts_camera_off q k r off is_open e long = ground arith
