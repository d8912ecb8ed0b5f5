-- ===== src/Common/Redis.antt =====
-- Redis, as the server uses it: one value of this record is one family of string keys, those that
-- share a prefix and differ in an id. The server does not implement Redis: the operations are
-- parameters, and the laws are what its manual says of them. Times are in ms, and a key is gone when
-- its time to live is over.
use live_server.Common.Tests.{◌==◌, ltb, if◌then◌else◌, is_some}
use live_server.Common.Store.{Store}
use Prim.Native.Nat.{ℕ, ◌+◌, ◌≤◌}
use mathlib.Core.Path.{◌≡◌, refl}
use mathlib.Core.Bool.{Bool, not, ◌&&◌}
use mathlib.Core.Option.{Option, none, some}
use native.Mathlib.Omega.{arith}

pub record Redis : Type 1 where
  pub State : Type 0
  -- `GET key` at a time
  pub get : State → ℕ → ℕ → Option ℕ
  -- `SET key value NX PX ttl` at a time: whether the answer is `OK`
  pub set_nx : State → ℕ → ℕ → ℕ → ℕ → State × Bool
  -- `SET key value PX ttl`
  pub set_px : State → ℕ → ℕ → ℕ → ℕ → State
  -- `PEXPIRE key ttl`
  pub pexpire : State → ℕ → ℕ → ℕ → State
  pub del : State → ℕ → State
  pub set_nx_reply :
      (s : State) (k v now ttl : ℕ) → (set_nx s k v now ttl).1 ≡ not (is_some (get s k now))
  pub get-set_nx :
      (s : State) (k v now ttl j t : ℕ)
      → now ≤ t
      → get (set_nx s k v now ttl).0 j t ≡ (
          if (j == k) && not (is_some (get s k now))
          then (if ltb t (now + ttl) then some v else none)
          else get s j t)
  pub get-set_px :
      (s : State) (k v now ttl j t : ℕ)
      → now ≤ t
      → get (set_px s k v now ttl) j t
        ≡ (if j == k then (if ltb t (now + ttl) then some v else none) else get s j t)
  pub get-pexpire :
      (s : State) (k now ttl j t : ℕ)
      → now ≤ t
      → get (pexpire s k now ttl) j t
        ≡ (if j == k then (if ltb t (now + ttl) then get s k now else none) else get s j t)
  pub get-del : (s : State) (k j t : ℕ) → get (del s k) j t ≡ (if j == k then none else get s j t)

-- A store of values with their expiry times has these laws.
pub record Entry : Type 0 where
  pub value : ℕ
  pub until : ℕ

abbrev value_at : Option Entry → ℕ → Option ℕ
value_at none t = none
value_at (some e) t = if ltb t e.until then some e.value else none

abbrev renewed : Option ℕ → ℕ → Option Entry
renewed none until = none
renewed (some v) until = some (record { value = v; until = until })

abbrev pub concrete_get : Store Entry → ℕ → ℕ → Option ℕ
concrete_get s k t = value_at (s k) t

abbrev concrete_set_nx : Store Entry → ℕ → ℕ → ℕ → ℕ → Store Entry × Bool
concrete_set_nx s k v now ttl =
    let busy = is_some (concrete_get s k now) in
    (
      (λ j. if (j == k) && not busy then some (record { value = v; until = now + ttl }) else s j),
      not busy,
    )

abbrev concrete_set_px : Store Entry → ℕ → ℕ → ℕ → ℕ → Store Entry
concrete_set_px s k v now ttl j =
    if j == k then some (record { value = v; until = now + ttl }) else s j

abbrev concrete_pexpire : Store Entry → ℕ → ℕ → ℕ → Store Entry
concrete_pexpire s k now ttl j = if j == k then renewed (concrete_get s k now) (now + ttl) else s j

abbrev concrete_del : Store Entry → ℕ → Store Entry
concrete_del s k j = if j == k then none else s j

pub concrete_get-set_nx :
    (s : Store Entry) (k v now ttl j t : ℕ)
    → now ≤ t
    → concrete_get (concrete_set_nx s k v now ttl).0 j t ≡ (
        if (j == k) && not (is_some (concrete_get s k now))
        then (if ltb t (now + ttl) then some v else none)
        else concrete_get s j t)
concrete_get-set_nx s k v now ttl j t h = ground arith

pub concrete_get-set_px :
    (s : Store Entry) (k v now ttl j t : ℕ)
    → now ≤ t
    → concrete_get (concrete_set_px s k v now ttl) j t
      ≡ (if j == k then (if ltb t (now + ttl) then some v else none) else concrete_get s j t)
concrete_get-set_px s k v now ttl j t h = ground arith

pub concrete_get-pexpire :
    (s : Store Entry) (k now ttl j t : ℕ)
    → now ≤ t
    → concrete_get (concrete_pexpire s k now ttl) j t ≡ (
        if j == k
        then (if ltb t (now + ttl) then concrete_get s k now else none)
        else concrete_get s j t)
concrete_get-pexpire s k now ttl j t h = ground arith

pub concrete_get-del :
    (s : Store Entry) (k j t : ℕ)
    → concrete_get (concrete_del s k) j t ≡ (if j == k then none else concrete_get s j t)
concrete_get-del s k j t = ground arith

abbrev pub concrete_redis : Redis
concrete_redis = record {
  State = Store Entry;
  get = concrete_get;
  set_nx = concrete_set_nx;
  set_px = concrete_set_px;
  pexpire = concrete_pexpire;
  del = concrete_del;
  set_nx_reply = λ s k v now ttl. refl;
  get-set_nx = concrete_get-set_nx;
  get-set_px = concrete_get-set_px;
  get-pexpire = concrete_get-pexpire;
  get-del = concrete_get-del;
}
