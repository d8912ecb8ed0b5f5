-- ===== src/Access/EventGuard/Passed.antt =====
-- On src/socket/eventGuard.js. What the guard lets through.
use live_server.Common.{
  ℕ, ◌+◌, ◌-◌, ◌*◌, ◌≤◌, ◌≡◌, ◌⊎◌, ◌∙◌, ap, refl, true, false, not, ◌&&◌, Option, none, some, List,
  [], ◌∷◌, arith, ==_refl, if◌then◌else◌, is_some, All, Option-cases, inl, inr, Bool-cases,
}
use live_server.Common.Store.{Store}
use live_server.Utils.TokenBucket.{Bucket, token, take_token}
use live_server.Utils.TokenBucket.Rate.{take_token_pays, first_pays, elapsed_refill}
use live_server.Access.Payload.{handled, Field, Value, payload_problem, schema}
use live_server.Access.Payload.Fits.{Fits, payload_problem-none_iff}
use live_server.Access.EventGuard.{
  Mode, enforce, enforces, RateClass, class_code, capacity, refill_rate, class_of, Packet, Verdict,
  next, drop, socket_event_guard, reject, invalid_payload,
}

passed_has_no_problem :
    (rate_mode : Mode) (buckets : Store Bucket) (p : Packet) (now : ℕ)
    → (socket_event_guard rate_mode enforce buckets p now).1 ≡ next
    → handled p.event ≡ true
    → (payload : Field → Value) × (p.payload ≡ some payload)
      × (payload_problem p.event payload ≡ none)
unfolding socket_event_guard
passed_has_no_problem rate_mode buckets p now h e = elim (Option-cases p.payload) [
  | inl n ↦ absurd (ground arith)
  | inr (payload, is) ↦ (payload, is, ground arith)
]

-- What a handler gets: in enforce mode, a handled event that passes the guard has a plain object whose
-- fields all fit the event's schema, whatever the rate limit's mode.
pub passed_checked :
    (rate_mode : Mode) (buckets : Store Bucket) (p : Packet) (now : ℕ)
    → (socket_event_guard rate_mode enforce buckets p now).1 ≡ next
    → handled p.event ≡ true
    → (payload : Field → Value) × (p.payload ≡ some payload) × All (Fits payload) (schema p.event)
passed_checked rate_mode buckets p now h e =
    let (payload, is, ok) = passed_has_no_problem rate_mode buckets p now h e in
    (payload, is, (payload_problem-none_iff p.event payload).0 ok)

-- In log mode and with the modes off, exactly the handled events whose payload is no plain object are
-- dropped.
pub log_mode_passes :
    (rate_mode guard_mode : Mode) (buckets : Store Bucket) (p : Packet) (now : ℕ)
    → enforces rate_mode ≡ false
    → enforces guard_mode ≡ false
    → (socket_event_guard rate_mode guard_mode buckets p now).1
      ≡ (if handled p.event && not (is_some p.payload) then reject p invalid_payload else next)
unfolding socket_event_guard
log_mode_passes rate_mode guard_mode buckets p now r g = ground arith

abbrev pub passes : Verdict → ℕ
passes next = 1
passes (drop c) = 0

-- One socket's packets, each with its time: how many pass.
abbrev pub count_passed : Mode → Store Bucket → List (Packet × ℕ) → ℕ
count_passed guard_mode buckets [] = 0
count_passed guard_mode buckets ((p, now) ∷ ps) =
    let (buckets', v) = socket_event_guard enforce guard_mode buckets p now in
    passes v + count_passed guard_mode buckets' ps

-- The times do not fall, and all the events are of a class.
abbrev pub Burst : RateClass → ℕ → List (Packet × ℕ) → Type 0
Burst c t [] = Unit {0}
Burst c t ((p, u) ∷ ps) = (class_of p.event ≡ c) × (t ≤ u) × Burst c u ps

abbrev pub end_time : ℕ → List (Packet × ℕ) → ℕ
end_time t [] = t
end_time t ((p, u) ∷ ps) = end_time u ps

-- A packet that leaves the buckets as they are is dropped; any other passes only with its token.
guard_step :
    (guard_mode : Mode) (buckets : Store Bucket) (p : Packet) (now : ℕ) (c : RateClass)
    (s : Option Bucket)
    → class_of p.event ≡ c
    → buckets (class_code c) ≡ s
    → let (buckets', v) = socket_event_guard enforce guard_mode buckets p now in
      let (b, allowed) = take_token (capacity c) (refill_rate c) s now in
      ((buckets' ≡ buckets) × (passes v ≡ 0))
      ⊎ ((buckets' (class_code c) ≡ some b) × (passes v ≤ (if allowed then 1 else 0)))
unfolding socket_event_guard
guard_step guard_mode buckets p now c s e h =
    elim (Bool-cases (handled p.event && not (is_some p.payload))) [
      | inl bad ↦ inl (rw bad refl, rw bad refl)
      | inr good ↦ inr (
        rw good (rw e (rw h (rw (==_refl (class_code c)) refl))),
        rw good (rw e (rw h (ground arith))),
      )
    ]

flood_from :
    (c : RateClass) (guard_mode : Mode) (buckets : Store Bucket) (b : Bucket) (t : ℕ)
    (ps : List (Packet × ℕ))
    → buckets (class_code c) ≡ some b
    → b.at ≤ t
    → Burst c t ps
    → token * count_passed guard_mode buckets ps + b.at * refill_rate c
      ≤ b.tokens + end_time t ps * refill_rate c
flood_from c guard_mode buckets b t [] h le f =
    omega (arith, elapsed_refill (refill_rate c) b.at t le)
flood_from c guard_mode buckets b t ((p, u) ∷ ps) h le f =
    let r = refill_rate c in
    let buckets' = (socket_event_guard enforce guard_mode buckets p u).0 in
    let b' = (take_token (capacity c) r (some b) u).0 in
    let le' : b.at ≤ u = omega (arith, f.1, le) in
    elim (guard_step guard_mode buckets p u c (some b) f.0 h) [
      | inl (same, dropped) ↦ omega (
        arith,
        dropped,
        flood_from c guard_mode buckets' b u ps (ap (λ m. m (class_code c)) same ∙ h) le' f.2,
      )
      | inr (new, paid) ↦
          let (pays, at) = take_token_pays (capacity c) r b u le' in
          omega (
            arith,
            paid,
            pays,
            ap (λ (x : ℕ). x * r) at,
            flood_from c guard_mode buckets' b' u ps new (omega (arith, at)) f.2,
          )
    ]

flood_fresh :
    (c : RateClass) (guard_mode : Mode) (buckets : Store Bucket) (t : ℕ) (ps : List (Packet × ℕ))
    → buckets (class_code c) ≡ none
    → Burst c t ps
    → token * count_passed guard_mode buckets ps + t * refill_rate c
      ≤ token * capacity c + end_time t ps * refill_rate c
flood_fresh c guard_mode buckets t [] h f = omega arith
flood_fresh c guard_mode buckets t ((p, u) ∷ ps) h f =
    let r = refill_rate c in
    let buckets' = (socket_event_guard enforce guard_mode buckets p u).0 in
    let b' = (take_token (capacity c) r none u).0 in
    let waited = elapsed_refill r t u f.1 in
    elim (guard_step guard_mode buckets p u c none f.0 h) [
      | inl (same, dropped) ↦ omega (
        arith,
        dropped,
        waited,
        flood_fresh c guard_mode buckets' u ps (ap (λ m. m (class_code c)) same ∙ h) f.2,
      )
      | inr (new, paid) ↦
          let (pays, at) = first_pays (capacity c) r u in
          omega (
            arith,
            paid,
            pays,
            waited,
            ap (λ (x : ℕ). x * r) at,
            flood_from c guard_mode buckets' b' u ps new (omega (arith, at)) f.2,
          )
    ]

end_time-le : (c : RateClass) (t : ℕ) (ps : List (Packet × ℕ)) → Burst c t ps → t ≤ end_time t ps
end_time-le c t [] f = omega arith
end_time-le c t ((p, u) ∷ ps) f = omega (arith, f.1, end_time-le c u ps f.2)

-- With the rate limit in enforce mode, a socket that has not used a class of events before gets at most
-- the class's burst of them through, and its refill rate times the time from the first to the last.
pub flood_bounded :
    (c : RateClass) (guard_mode : Mode) (buckets : Store Bucket) (t : ℕ) (ps : List (Packet × ℕ))
    → buckets (class_code c) ≡ none
    → Burst c t ps
    → token * count_passed guard_mode buckets ps
      ≤ token * capacity c + (end_time t ps - t) * refill_rate c
flood_bounded c guard_mode buckets t ps h f = omega (
  arith,
  flood_fresh c guard_mode buckets t ps h f,
  elapsed_refill (refill_rate c) t (end_time t ps) (end_time-le c t ps f),
)
