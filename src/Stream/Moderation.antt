-- ===== src/Stream/Moderation.antt =====
-- `verifyStreamFrameService` of src/routes/service/serviceLive.js. What the image service says of the
-- frame is a parameter. The writes after the count of the earlier bans are taken to succeed.
pub mod Bans
use live_server.Common.{
  ℕ, ◌+◌, ◌*◌, Bool, true, false, not, Option, none, some, or_else, List, [], ◌∷◌, ◌++◌, ◌==◌,
  if◌then◌else◌,
}
use live_server.Stream.Camera.{effective_seconds}
use live_server.Stream.Keys.{
  LiveKeys, Key, Family, active_stream, info, active, history, chats, admins, kicked, password,
  sheet, key, del_keys,
}
use live_server.Stream.Table.{Row, EndPatch, StreamTable}
use live_server.Stream.End.{start_of}

pub data Action : Type 0 where
  block warning other : Action

-- The answer of `moderateImage`.
pub record Check : Type 0 where
  pub is_violation : Bool
  pub action : Action
  pub label : ℕ
  pub confidence : ℕ

pub record Ban : Type 0 where
  pub hours : ℕ
  pub number : ℕ
  pub suspended_until : ℕ

pub data Result : Type 0 where
  throws_not_found inactive clean : Result
  blocked : Ban → Result
  warned : ℕ → ℕ → Result

pub data Effect : Type 0 where
  upload_frame save_log publish_offline close_livekit_room : ℕ → Effect
  save_messages : List ℕ → Effect
  -- `users.suspended_until`, and the two cached restrictions with their time to live in seconds
  suspend cache_ban : ℕ → ℕ → Effect
  create_ban create_restriction : ℕ → Ban → Effect
  broadcast_blocked : ℕ → Ban → Effect
  broadcast_warning : ℕ → Effect

abbrev pub hour_ms : ℕ
hour_ms = 3600000

unfoldable pub ban_hours : ℕ → ℕ
ban_hours number =
    if number == 1 then 1 else if number == 2 then 8 else if number == 3 then 24 else 72

-- The ban of a user with so many bans before; `none` where the count fails: then nothing is written, and
-- the first ban is reported.
abbrev pub ban_of : Option ℕ → ℕ → Ban
ban_of none now = record { hours = 1; number = 1; suspended_until = now + hour_ms }
ban_of (some previous) now =
    let hours = ban_hours (previous + 1) in
    record { hours = hours; number = previous + 1; suspended_until = now + hours * 3600 * 1000 }

abbrev ban_effects : Bool → Option ℕ → ℕ → Ban → List Effect
ban_effects redis_open none user b = []
ban_effects redis_open (some previous) user b =
    suspend user b.suspended_until
    ∷ ((if redis_open then cache_ban user (b.hours * 3600) ∷ [] else [])
        ++ (create_ban user b ∷ create_restriction user b ∷ []))

abbrev batch_sync : List ℕ → List Effect
batch_sync [] = []
batch_sync (c ∷ cs) = save_messages (c ∷ cs) ∷ []

-- The list of step 5.
abbrev moderation_keys : Row → List Key
moderation_keys r =
    key active_stream r.user_id
    ∷ key info r.stream_id
    ∷ key info r.id
    ∷ key active r.stream_id
    ∷ key history r.stream_id
    ∷ key chats r.stream_id
    ∷ key admins r.stream_id
    ∷ key kicked r.stream_id
    ∷ key password r.stream_id
    ∷ key sheet r.stream_id
    ∷ []

-- "AI_MODERATION_NUDITY_BLOCK" stands for itself as a number.
abbrev pub nudity_block : List ℕ
nudity_block = 1 ∷ []

unfoldable pub moderation_patch : Bool → LiveKeys → Row → ℕ → EndPatch
moderation_patch redis_open k r now = record {
  ended_at = now;
  effective_duration = effective_seconds redis_open (k.camera r.stream_id) (start_of r now) now;
  end_reason = nudity_block;
}

abbrev block_effects : Bool → LiveKeys → Row → Option ℕ → ℕ → List Effect
block_effects redis_open k r previous now =
    upload_frame r.id
    ∷ save_log r.id
    ∷ (batch_sync (if redis_open then k.chats_of r.stream_id else [])
        ++ (publish_offline r.user_id
            ∷ (ban_effects redis_open previous r.user_id (ban_of previous now)
                ++ (broadcast_blocked r.stream_id (ban_of previous now)
                    ∷ close_livekit_room r.stream_id
                    ∷ []))))

module _ (t : StreamTable) where
  open t use {State, find_unique, update}

  checked :
      Bool → Row → Check → Option ℕ → ℕ → State → LiveKeys → State × LiveKeys × Result × List Effect
  checked redis_open r c previous now st k =
      if not c.is_violation then (st, k, clean, []) else elim c.action [
        | block ↦ (
          update st r.id (moderation_patch redis_open k r now),
          if redis_open then del_keys (moderation_keys r) k else k,
          blocked (ban_of previous now),
          block_effects redis_open k r previous now,
        )
        | warning ↦ (
          st,
          k,
          warned c.label c.confidence,
          upload_frame r.id ∷ save_log r.id ∷ broadcast_warning r.stream_id ∷ [],
        )
        | other ↦ (st, k, clean, upload_frame r.id ∷ save_log r.id ∷ [])
      ]

  verify_read :
      Bool
      → Option Row
      → Check
      → Option ℕ
      → ℕ
      → State
      → State
      → LiveKeys
      → State × LiveKeys × Result × List Effect
  verify_read redis_open none c previous now st st' k = (st, k, throws_not_found, [])
  verify_read redis_open (some r) c previous now st st' k =
      if not r.is_live then (st, k, inactive, []) else checked redis_open r c previous now st' k

  -- `between` is what others do to the table while the image service looks at the frame; `previous` is
  -- the number of bans of the host.
  unfoldable pub verify_stream_frame :
      Bool
      → ℕ
      → Check
      → Option ℕ
      → ℕ
      → State
      → LiveKeys
      → (State → State)
      → State × LiveKeys × Result × List Effect
  unfolding checked verify_read
  verify_stream_frame redis_open id c previous now st k between =
      verify_read redis_open (find_unique st id) c previous now st (between st) k
