-- ===== src/Utils/TokenBucket/Rate.antt =====
-- On src/utils/tokenBucket.js. How many requests a bucket lets through in a stretch of time.
use live_server.Common.{
  ℕ, ◌+◌, ◌-◌, ◌*◌, ◌≤◌, ◌≡◌, ap, Option, none, some, List, [], ◌∷◌, arith, if◌then◌else◌,
}
use live_server.Utils.TokenBucket.{Bucket, token, take_token}

-- A request at each of the times: how many were allowed, and the bucket at the end.
abbrev pub take_all : ℕ → ℕ → Option Bucket → List ℕ → ℕ × Option Bucket
take_all c r s [] = (0, s)
take_all c r s (t ∷ ts) =
    let (b, allowed) = take_token c r s t in
    let (n, s') = take_all c r (some b) ts in ((if allowed then 1 else 0) + n, s')

-- The times do not fall, and start no earlier than `t`.
abbrev pub From : ℕ → List ℕ → Type 0
From t [] = Unit {0}
From t (u ∷ us) = (t ≤ u) × From u us

abbrev pub last_time : ℕ → List ℕ → ℕ
last_time t [] = t
last_time t (u ∷ us) = last_time u us

pub elapsed_refill : (r t u : ℕ) → t ≤ u → (u - t) * r + t * r ≡ u * r
elapsed_refill r t u h = grind arith

-- One request pays for its token out of the bucket and what has trickled in.
pub take_token_pays :
    (c r : ℕ) (b : Bucket) (t : ℕ)
    → b.at ≤ t
    → let (b', allowed) = take_token c r (some b) t in
      (b'.tokens + token * (if allowed then 1 else 0) + b.at * r ≤ b.tokens + t * r) × (b'.at ≡ t)
unfolding take_token
take_token_pays c r b t h = ground (arith, elapsed_refill r b.at t h)

From-eq : {t u : ℕ} (us : List ℕ) → t ≡ u → From u us → From t us
From-eq [] e f = tt
From-eq (u ∷ us) e f = (omega arith, f.1)

last_time-eq : {t u : ℕ} (us : List ℕ) → t ≡ u → last_time t us ≡ last_time u us
last_time-eq us e = ap (λ t. last_time t us) e

take_all_pays :
    (c r : ℕ) (b : Bucket) (ts : List ℕ)
    → From b.at ts
    → token * (take_all c r (some b) ts).0 + b.at * r ≤ b.tokens + last_time b.at ts * r
take_all_pays c r b [] h = omega arith
take_all_pays c r b (t ∷ ts) h =
    let p = take_token_pays c r b t h.0 in
    let b' = (take_token c r (some b) t).0 in
    let rest = take_all_pays c r b' ts (From-eq ts p.1 h.1) in
    omega (arith, p.0, ap (λ (x : ℕ). x * r) p.1, rest, ap (λ (x : ℕ). x * r) (last_time-eq ts p.1))

pub first_pays :
    (c r t : ℕ)
    → let (b, allowed) = take_token c r none t in
      (b.tokens + token * (if allowed then 1 else 0) ≤ token * c) × (b.at ≡ t)
unfolding take_token
first_pays c r t = ground arith

last_time-le : (t : ℕ) (ts : List ℕ) → From t ts → t ≤ last_time t ts
last_time-le t [] h = omega arith
last_time-le t (u ∷ us) h = omega (arith, last_time-le u us h.1)

-- A new bucket, asked at `t` and then at times that do not fall, allows at most its capacity and
-- what trickles in between the first request and the last.
pub take_all_bounded :
    (c r t : ℕ) (ts : List ℕ)
    → From t ts
    → token * (take_all c r none (t ∷ ts)).0 ≤ token * c + (last_time t ts - t) * r
take_all_bounded c r t ts h =
    let p = first_pays c r t in
    let rest = take_all_pays c r (take_token c r none t).0 ts (From-eq ts p.1 h) in
    omega (
      arith,
      p.0,
      ap (λ (x : ℕ). x * r) p.1,
      rest,
      ap (λ (x : ℕ). x * r) (last_time-eq ts p.1),
      elapsed_refill r t (last_time t ts) (last_time-le t ts h),
    )
