-- ===== src/VideoCall/Heartbeats/Seen.antt =====
-- On src/modules/videoCall/service.js. Who sees a heartbeat.
use live_server.Common.{
  ℕ, ◌+◌, ◌≤◌, ◌<◌, ◌≡◌, true, Option, none, some, List, [], ◌∷◌, arith, ==_refl, Option-cases, inl,
  inr,
}
use live_server.Common.Redis.{Redis}
use live_server.VideoCall.Heartbeats.{
  heartbeat_ttl_ms, Heartbeats, record_heartbeat, get_call_heartbeat,
}

-- A ping, and none older than `t`.
abbrev pub NoOlder : ℕ → Option ℕ → Type 0
NoOlder t none = ⊥
NoOlder t (some p) = t ≤ p

module _ (r : Redis) where
  open r use {State, get, set_px, get-set_px}

  -- Pings of a call that reach nodes, each with its time.
  abbrev pub pings : Heartbeats r → ℕ → List (ℕ × ℕ) → Heartbeats r
  pings h session [] = h
  pings h session ((node, t) ∷ ts) = pings (record_heartbeat r true h node session t) session ts

  abbrev pub InOrder : ℕ → ℕ → List (ℕ × ℕ) → Type 0
  InOrder t end [] = t ≤ end
  InOrder t end ((node, u) ∷ us) = (t ≤ u) × InOrder u end us

  -- Redis has a ping from `t` on, for as long as the newest is kept.
  abbrev Fresh : Heartbeats r → ℕ → ℕ → Type 0
  Fresh h session t = (u : ℕ) → t ≤ u → u < t + heartbeat_ttl_ms → get h.remote session u ≡ some t

  record-Fresh :
      (h : Heartbeats r) (node session t : ℕ)
      → Fresh (record_heartbeat r true h node session t) session t
  unfolding record_heartbeat
  record-Fresh h node session t u a b =
      ground (arith, get-set_px h.remote session t t heartbeat_ttl_ms session u a, ==_refl session)

  abbrev pub last_ping : ℕ → List (ℕ × ℕ) → ℕ
  last_ping t [] = t
  last_ping t ((node, u) ∷ us) = last_ping u us

  pings-Fresh :
      (h : Heartbeats r) (session t : ℕ) (ts : List (ℕ × ℕ))
      → Fresh h session t
      → Fresh (pings h session ts) session (last_ping t ts)
  pings-Fresh h session t [] f = f
  pings-Fresh h session t ((node, u) ∷ us) f =
      pings-Fresh (record_heartbeat r true h node session u) session u us
        (record-Fresh h node session u)

  seen :
      (h : Heartbeats r) (node session t now : ℕ)
      → Fresh h session t
      → 0 < t
      → t ≤ now
      → now < t + heartbeat_ttl_ms
      → NoOlder t (get_call_heartbeat r true h node session now)
  unfolding get_call_heartbeat
  seen h node session t now f p a b =
      let stored = f now a b in
      elim (Option-cases (h.heartbeat_cache node session)) [
        | inl e ↦ rw stored (rw e (ground arith))
        | inr (l, e) ↦ rw stored (rw e (ground arith))
      ]

  last_ping-le :
      (t end : ℕ) (ts : List (ℕ × ℕ))
      → InOrder t end ts
      → (t ≤ last_ping t ts) × (last_ping t ts ≤ end)
  last_ping-le t end [] o = (omega arith, o)
  last_ping-le t end ((node, u) ∷ us) o =
      let rest = last_ping-le u end us o.1 in (omega (arith, rest.0, o.0), rest.1)

  -- With Redis open, every node sees the newest ping of a call, or one that is newer, whichever nodes the
  -- pings reached, for two minutes after it: a reader never takes a live call for a silent one because
  -- its pings went elsewhere.
  pub newest_ping_seen :
      (h : Heartbeats r) (session node reader t now : ℕ) (ts : List (ℕ × ℕ))
      → 0 < t
      → InOrder t now ts
      → now < last_ping t ts + heartbeat_ttl_ms
      → NoOlder
          (last_ping t ts)
          (get_call_heartbeat r true (pings h session ((node, t) ∷ ts)) reader session now)
  newest_ping_seen h session node reader t now ts p o l =
      let (from, to) = last_ping-le t now ts o in
      seen (pings h session ((node, t) ∷ ts)) reader session (last_ping t ts) now
        (pings-Fresh (record_heartbeat r true h node session t) session t ts
          (record-Fresh h node session t))
        (omega (arith, p, from)) to l
