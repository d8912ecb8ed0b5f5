-- ===== src/Stream/GoLive.antt =====
-- `fastGoLiveStreamService` of src/routes/service/serviceLive.js: a host starts a stream. Titles, images
-- and the LiveKit key and token, which decide nothing, are left out.
pub mod Started
pub mod Replaces
use live_server.Common.{
  ℕ, ◌≡◌, ◌≢◌, refl, Bool, true, false, ◌&&◌, not, Option, none, some, is_some, or_else, List, [],
  ◌∷◌, ◌++◌, map, ◌==◌, ltb, if◌then◌else◌,
}
use live_server.Common.Store.{Store, put, del}
use live_server.Stream.Camera.{Camera, handle_camera_state_change}
use live_server.Stream.Keys.{Info, LiveKeys, clear_live_stream_redis_keys}
use live_server.Stream.Table.{Row, StreamTable}
use live_server.Stream.End.{Request, Answers, EndResult, already_ended, ended, end_live_stream}
use live_server.Stream.End

-- How one INSERT ends: done, P2002, or another error, after which the row may be there or not.
pub data Written : Type 0 where
  written duplicate failed : Written

abbrev pub is_written : Written → Bool
is_written written = true
is_written duplicate = true
is_written failed = false

-- The table, with the two further statements: a live stream of a user, and the INSERT. A new row that is
-- written, or refused as a duplicate of the id, is there; no statement of one id changes another's row.
pub record HostTable : Type 1 where
  pub table : StreamTable
  pub find_live_of : table.State → ℕ → Option Row
  pub create : table.State → Row → table.State × Written
  pub found-live :
      (st : table.State) (u : ℕ) (r : Row)
      → find_live_of st u ≡ some r
      → (table.find_first st r.id ≡ some r)
        × (table.find_unique st r.id ≡ some r)
        × (r.user_id ≡ u)
        × (r.is_live ≡ true)
  pub create_written :
      (st : table.State) (r : Row)
      → is_written (create st r).1 ≡ true
      → is_some (table.find_unique (create st r).0 r.id) ≡ true
  pub find-create :
      (st : table.State) (r : Row) (j : ℕ)
      → j ≢ r.id
      → table.find_unique (create st r).0 j ≡ table.find_unique st j

pub record Start : Type 0 where
  pub user_id : ℕ
  -- the random id of the new stream
  pub stream_id : ℕ
  pub is_camera_on : Bool
  pub now : ℕ
  pub redis_open : Bool
  pub is_production : Bool
  -- the time until which the user may not start a stream, and the user's row: until when the user is
  -- suspended, if at all
  pub ban : Option ℕ
  pub user : Option (Option ℕ)

pub data Result : Type 0 where
  throws_banned throws_suspended_until : ℕ → Result
  throws_suspended throws_not_started : Result
  started : Row → Result

pub data Effect : Type 0 where
  of_end : End.Effect → Effect
  broadcast_ended : ℕ → Effect
  publish_live : ℕ → ℕ → Effect

abbrev pub new_row : Start → Row
new_row q = record {
  id = q.stream_id;
  stream_id = q.stream_id;
  user_id = q.user_id;
  playback_id = none;
  is_live = true;
  started_at = some q.now;
  created_at = some q.now;
  ended_at = none;
  effective_duration = 0;
  end_reason = none;
}

-- `stream:info:<stream>`, `user:active_stream:<user>`, and the camera.
abbrev with_markers : Start → LiveKeys → LiveKeys
with_markers q k =
    if q.redis_open
    then record k {
      info_of =
          put k.info_of q.stream_id
            (record { user_id = q.user_id; id = some q.stream_id; stream_id = some q.stream_id });
      active_stream_of = put k.active_stream_of q.user_id q.stream_id;
    }
    else k

abbrev with_camera_off : Start → LiveKeys → LiveKeys
with_camera_off q k = if q.is_camera_on then k else record k {
  camera = λ i.
      if i == q.stream_id
      then handle_camera_state_change q.redis_open (k.camera i) false q.now
      else k.camera i;
}

-- "REPLACED_BY_NEW_GOLIVE" stands for itself as a number.
abbrev replaced : List ℕ
replaced = 2 ∷ []

abbrev pub end_request : Start → ℕ → Request
end_request q id = record {
  id = id;
  user_id = q.user_id;
  reason = replaced;
  now = q.now;
  redis_open = q.redis_open;
  is_production = q.is_production;
}

-- The room of an ended stream is told, unless the end threw.
abbrev told : EndResult → List Effect
told (ended r s) = broadcast_ended r.stream_id ∷ []
told (already_ended r) = broadcast_ended r.stream_id ∷ []
told (End.redis_abort i s) = broadcast_ended s.stream_id ∷ []
told End.throws_not_found = []
told End.throws_unauthorized = []

-- What the suspension in the user's row says; a cached answer stands for the row, which is not read then.
abbrev pub suspended_until : Option Bool → Option (Option ℕ) → Option ℕ
suspended_until none (some until) = until
suspended_until none none = none
suspended_until (some b) user = none

abbrev pub still : Option ℕ → ℕ → Option ℕ
still none now = none
still (some until) now = if ltb now until then some until else none

abbrev pub is_true : Option Bool → Bool
is_true none = false
is_true (some b) = b

abbrev cached_free : Bool → Option Bool → Option (Option ℕ) → Option Bool
cached_free redis_open none none = none
cached_free redis_open none (some until) = if redis_open then some false else none
cached_free redis_open (some b) user = some b

module _ (h : HostTable) (a : Answers) where
  open h use {table, find_live_of, create}
  open table use {State}

  -- Everything that a start works on: the table, the keys, and `user:suspended:<user>`.
  pub record World : Type 0 where
    pub state : State
    pub keys : LiveKeys
    pub suspended : Option Bool

  abbrev pub ended_previous : Start → World → Option Row → World × List Effect
  ended_previous q w none = (w, [])
  ended_previous q w (some r) =
      let (st, k, result, effects) =
        end_live_stream table a (end_request q r.id) w.state w.keys (λ st. st) in
      (
        record w {
          state = st;
          keys =
              if q.redis_open
              then record k { active_stream_of = del k.active_stream_of q.user_id }
              else k;
        },
        map of_end effects ++ told result,
      )

  -- Two attempts at the row; then the markers go and the start fails.
  abbrev second_write : Start → World → State × Written → World × Result × List Effect
  second_write q w (st, outcome) =
      if is_written outcome
      then (record w { state = st }, started (new_row q), publish_live q.user_id q.stream_id ∷ [])
      else (
        record w {
          state = st;
          keys = clear_live_stream_redis_keys q.redis_open w.keys q.stream_id q.user_id q.stream_id;
        },
        throws_not_started,
        [],
      )

  abbrev first_write : Start → World → State × Written → World × Result × List Effect
  first_write q w (st, outcome) =
      second_write q w (if is_written outcome then (st, outcome) else create st (new_row q))

  abbrev pub create_stream : Start → World → World × Result × List Effect
  create_stream q w =
      let marked : World = record w { keys = with_camera_off q (with_markers q w.keys) } in
      first_write q marked (create w.state (new_row q))

  abbrev pub unless_suspended :
      Start → Option Bool → World → Option ℕ → World × Result × List Effect
  unless_suspended q cached w (some until) = (
    record w { suspended = if q.redis_open then some true else w.suspended },
    throws_suspended_until until,
    [],
  )
  unless_suspended q cached w none = create_stream q (record w {
    suspended = if is_some cached then w.suspended else cached_free q.redis_open w.suspended q.user;
  })

  abbrev pub after_end : Start → Option Bool → World × List Effect → World × Result × List Effect
  after_end q cached (w, effects) =
      let (w', result, more) =
        unless_suspended q cached w (still (suspended_until cached q.user) q.now) in
      (w', result, effects ++ more)

  abbrev pub unless_banned : Start → World → Option ℕ → World × Result × List Effect
  unless_banned q w (some until) = (w, throws_banned until, [])
  unless_banned q w none =
      let cached : Option Bool = if q.redis_open then w.suspended else none in
      if is_true cached
      then (w, throws_suspended, [])
      else after_end q cached (ended_previous q w (find_live_of w.state q.user_id))

  unfoldable pub fast_go_live_stream : Start → World → World × Result × List Effect
  fast_go_live_stream q w = unless_banned q w q.ban
