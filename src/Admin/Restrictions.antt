-- ===== src/Admin/Restrictions.antt =====
-- src/routes/service/serviceAdmin.js: the timed restrictions of one user. A type of restriction is a text
-- in the source and a number here. The writes of Redis, which nobody waits for, are made at once.
pub mod Rows
pub mod Checked
pub mod Cleared
use live_server.Common.{
  ℕ, ◌+◌, ◌-◌, ◌*◌, ◌/◌, max, Bool, true, false, ◌&&◌, ◌||◌, not, Option, none, some, is_some, List,
  [], ◌∷◌, ◌++◌, ◌==◌, leb, ltb, if◌then◌else◌,
}
use live_server.Common.Store.{Store, empty_store, put, del}

abbrev pub live_chat_mute : ℕ
live_chat_mute = 0

abbrev pub live_audio_mute : ℕ
live_audio_mute = 1

abbrev pub messaging_disable : ℕ
messaging_disable = 2

abbrev pub live_stream_start_ban : ℕ
live_stream_start_ban = 3

abbrev pub personal_coins_freeze : ℕ
personal_coins_freeze = 4

abbrev pub trading_coins_freeze : ℕ
trading_coins_freeze = 5

-- VALID_RESTRICTION_TYPES: the first four.
abbrev pub is_valid_type : ℕ → Bool
is_valid_type type = leb type live_stream_start_ban

pub record Restriction : Type 0 where
  pub id : ℕ
  pub type : ℕ
  pub restricted_until : ℕ
  pub cleared_at : Option ℕ

-- `user:restriction:<user>:<type>`, with the time until which Redis has it.
pub record Cached : Type 0 where
  pub restriction : Restriction
  pub expires_at : ℕ

pub record State : Type 0 where
  pub rows : List Restriction
  pub cache : Store Cached

-- Not cleared, and not over.
abbrev pub is_active : ℕ → Restriction → Bool
is_active now r = not (is_some r.cleared_at) && ltb now r.restricted_until

-- `getActiveUserRestriction`
abbrev pub get_active : ℕ → ℕ → List Restriction → Option Restriction
get_active now type [] = none
get_active now type (r ∷ rs) =
    if (r.type == type) && is_active now r then some r else get_active now type rs

-- Until when Redis keeps a restriction: `EX: Math.max(1, Math.floor(ms / 1000))`.
abbrev pub expiry : ℕ → Restriction → ℕ
expiry now r = now + max 1 ((r.restricted_until - now) / 1000) * 1000

abbrev pub write_cache : ℕ → Store Cached → ℕ → Restriction → Store Cached
write_cache now cache type r =
    put cache type (record { restriction = r; expires_at = expiry now r })

abbrev pub from_cache : ℕ → Option Cached → Option Restriction
from_cache now none = none
from_cache now (some e) =
    if ltb now e.expires_at && is_active now e.restriction then some e.restriction else none

abbrev pub refreshed : ℕ → Store Cached → ℕ → Option Restriction → Store Cached
refreshed now cache type none = del cache type
refreshed now cache type (some r) = write_cache now cache type r

abbrev pub cached_or_row : ℕ → State → ℕ → Option Restriction → State × Option Restriction
cached_or_row now s type (some r) = (s, some r)
cached_or_row now s type none =
    let found = get_active now type s.rows in
    (record s { cache = refreshed now s.cache type found }, found)

unfoldable pub is_user_restricted_fast : Bool → ℕ → State → ℕ → State × Option Restriction
is_user_restricted_fast redis_open now s type =
    if redis_open
    then cached_or_row now s type (from_cache now (s.cache type))
    else (s, get_active now type s.rows)

-- What happens besides, later on.
pub data Effect : Type 0 where
  notify_super_admins end_live_stream end_video_calls leave_seats unmute_seats : Effect
  emit_cleared : ℕ → Effect

pub data Error : Type 0 where
  not_in_future invalid_type no_country_access : Error

pub data Applied : Type 0 where
  refused : Error → Applied
  applied : Restriction → List Effect → Applied

-- `updateMany` of rows that are not cleared.
abbrev pub clear_where : ℕ → (Restriction → Bool) → List Restriction → List Restriction
clear_where now p [] = []
clear_where now p (r ∷ rs) =
    (if not (is_some r.cleared_at) && p r then record r { cleared_at = some now } else r)
    ∷ clear_where now p rs

abbrev pub count_where : (Restriction → Bool) → List Restriction → ℕ
count_where p [] = 0
count_where p (r ∷ rs) = (if not (is_some r.cleared_at) && p r then 1 else 0) + count_where p rs

abbrev when : Bool → Effect → List Effect
when b e = if b then e ∷ [] else []

abbrev is_live_mute : ℕ → Bool
is_live_mute type = (type == live_chat_mute) || (type == live_audio_mute)

abbrev effects_of : ℕ → List Effect
effects_of type =
    when (is_live_mute type) notify_super_admins
    ++ when (type == live_stream_start_ban) end_live_stream
    ++ when ((type == personal_coins_freeze) || (type == trading_coins_freeze)) end_video_calls
    ++ when (type == live_audio_mute) leave_seats

abbrev pub created : ℕ → ℕ → ℕ → Restriction
created id type until = record { id = id; type = type; restricted_until = until; cleared_at = none }

abbrev pub with_row : Bool → ℕ → State → Restriction → State
with_row redis_open now s r = record {
  rows = clear_where now (λ o. (o.type == r.type) && ltb now o.restricted_until) s.rows ++ r ∷ [];
  cache = if redis_open then write_cache now s.cache r.type r else s.cache;
}

-- `applyUserRestrictionService`: `until` is `none` where it is no date, and `has_access` is the check of
-- the country.
unfoldable pub apply_user_restriction : Bool → Bool → ℕ → State → ℕ → ℕ → Option ℕ → State × Applied
apply_user_restriction redis_open has_access now s id type none = (s, refused not_in_future)
apply_user_restriction redis_open has_access now s id type (some until) =
    if leb until now
    then (s, refused not_in_future)
    else if not (is_valid_type type)
    then (s, refused invalid_type)
    else if is_live_mute type && not has_access
    then (s, refused no_country_access)
    else (
      with_row redis_open now s (created id type until),
      applied (created id type until) (effects_of type),
    )

abbrev cleared_effects : ℕ → List Effect
cleared_effects type = when (type == live_audio_mute) unmute_seats ++ emit_cleared type ∷ []

abbrev pub forgotten : Bool → Store Cached → ℕ → Store Cached
forgotten redis_open cache type = if redis_open then del cache type else cache

-- `clearRestrictionsByTypeService`
unfoldable pub clear_restrictions_by_type : Bool → ℕ → State → ℕ → State × ℕ × List Effect
clear_restrictions_by_type redis_open now s type =
    let same = λ (r : Restriction). r.type == type in
    let rows' = clear_where now same s.rows in
    let count = count_where same s.rows in
    if count == 0 then (record s { rows = rows' }, 0, []) else (
      record { rows = rows'; cache = forgotten redis_open s.cache type },
      count,
      cleared_effects type,
    )

abbrev pub find_by_id : ℕ → List Restriction → Option Restriction
find_by_id id [] = none
find_by_id id (r ∷ rs) = if r.id == id then some r else find_by_id id rs

abbrev cleared_found :
    Bool → State → List Restriction → ℕ → Option Restriction → State × Bool × List Effect
cleared_found redis_open s rows' count none = (record s { rows = rows' }, not (count == 0), [])
cleared_found redis_open s rows' count (some r) =
    if count == 0 then (record s { rows = rows' }, false, []) else (
      record { rows = rows'; cache = forgotten redis_open s.cache r.type },
      true,
      cleared_effects r.type,
    )

-- `clearRestrictionByIdService`
unfoldable pub clear_restriction_by_id : Bool → ℕ → State → ℕ → State × Bool × List Effect
clear_restriction_by_id redis_open now s id =
    let same = λ (r : Restriction). r.id == id in
    cleared_found redis_open s (clear_where now same s.rows) (count_where same s.rows)
      (find_by_id id s.rows)
