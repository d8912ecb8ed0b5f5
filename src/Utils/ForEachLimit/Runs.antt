-- ===== src/Utils/ForEachLimit/Runs.antt =====
-- On src/utils/forEachLimit.js. How often it calls `fn` on an item, and for how long.
use live_server.Common.{
  ℕ, zero, suc, ◌+◌, ◌-◌, ◌*◌, ◌≤◌, ◌≡◌, refl, ap, ◌∙◌, Bool, true, Option, List, [], ◌∷◌, ◌++◌,
  replicate, length, length-append, ◌==◌, ltb, if◌then◌else◌, arith, All, Bool-cases, ◌⊎◌, inl, inr,
}
use live_server.Utils.ForEachLimit.{
  Worker, idle, stopped, busy, State, start, width, Step, take, finish, stop, Run, begin, next_step,
}

-- How many workers are at an item, and how often its call has ended.
pub running : ℕ → List Worker → ℕ
running i [] = 0
running i (idle ∷ ws) = running i ws
running i (stopped ∷ ws) = running i ws
running i (busy j ∷ ws) = (if j == i then 1 else 0) + running i ws

pub times : ℕ → List ℕ → ℕ
times i [] = 0
times i (j ∷ js) = (if j == i then 1 else 0) + times i js

running-append : (i : ℕ) (xs ys : List Worker) → running i (xs ++ ys) ≡ running i xs + running i ys
unfolding running
running-append i [] ys = omega arith
running-append i (idle ∷ xs) ys = running-append i xs ys
running-append i (stopped ∷ xs) ys = running-append i xs ys
running-append i (busy j ∷ xs) ys = ground (arith, running-append i xs ys)

-- The steps that the workers can still make on their own.
weight : List Worker → ℕ
weight [] = 0
weight (idle ∷ ws) = 1 + weight ws
weight (stopped ∷ ws) = weight ws
weight (busy j ∷ ws) = 2 + weight ws

weight-append : (xs ys : List Worker) → weight (xs ++ ys) ≡ weight xs + weight ys
unfolding weight
weight-append [] ys = omega arith
weight-append (idle ∷ xs) ys = omega (arith, weight-append xs ys)
weight-append (stopped ∷ xs) ys = weight-append xs ys
weight-append (busy j ∷ xs) ys = omega (arith, weight-append xs ys)

-- Every item that was taken is in a call or has had one, and no other is.
pub Accounted : State → Type 0
Accounted s = (i : ℕ) → running i s.workers + times i s.finished ≡ (if ltb i s.next then 1 else 0)

Step-Accounted :
    {n : ℕ} {on_error : Bool} {s s' : State} → Step n on_error s s' → Accounted s → Accounted s'
unfolding Accounted running times
Step-Accounted {s = s} (take xs ys e less e') h i =
    ground (arith, h i, running-append i xs (idle ∷ ys), running-append i xs (busy s.next ∷ ys))
Step-Accounted {s = s} (finish xs ys j ok e e') h i =
    ground (arith, h i, running-append i xs (busy j ∷ ys), running-append i xs (idle ∷ ys))
Step-Accounted {s = s} (stop xs ys e over e') h i =
    ground (arith, h i, running-append i xs (idle ∷ ys), running-append i xs (stopped ∷ ys))

running-idle : (i k : ℕ) → running i (replicate k idle) ≡ 0
unfolding running
running-idle i zero = refl
running-idle i (suc k) = running-idle i k

Run-Accounted :
    {n : ℕ} {on_error : Bool} {limit : Option ℕ} {k : ℕ} {s : State}
    → Run n on_error limit k s
    → Accounted s
unfolding Accounted times start
Run-Accounted {n} {limit = limit} begin = λ i. ground (arith, running-idle i (width n limit))
Run-Accounted (next_step r st) = Step-Accounted st (Run-Accounted r)

-- Every step uses up some of what is left.
left : ℕ → State → ℕ
left n s = 2 * (n - s.next) + weight s.workers

Step-left :
    {n : ℕ} {on_error : Bool} {s s' : State} → Step n on_error s s' → left n s' + 1 ≤ left n s
unfolding left weight
Step-left {s = s} (take xs ys e less e') =
    ground (arith, weight-append xs (idle ∷ ys), weight-append xs (busy s.next ∷ ys))
Step-left (finish xs ys j ok e e') =
    ground (arith, weight-append xs (busy j ∷ ys), weight-append xs (idle ∷ ys))
Step-left (stop xs ys e over e') =
    ground (arith, weight-append xs (idle ∷ ys), weight-append xs (stopped ∷ ys))

weight-idle : (k : ℕ) → weight (replicate k idle) ≡ k
unfolding weight
weight-idle zero = refl
weight-idle (suc k) = omega (arith, weight-idle k)

Run-left :
    {n : ℕ} {on_error : Bool} {limit : Option ℕ} {k : ℕ} {s : State}
    → Run n on_error limit k s
    → k + left n s ≤ 2 * n + width n limit
unfolding left start
Run-left {n} {limit = limit} begin = omega (arith, weight-idle (width n limit))
Run-left (next_step r st) = omega (arith, Run-left r, Step-left st)

length-replicate : (k : ℕ) → length (replicate k idle) ≡ k
length-replicate zero = refl
length-replicate (suc k) = omega (arith, length-replicate k)

Step-length :
    {n : ℕ} {on_error : Bool} {s s' : State}
    → Step n on_error s s'
    → length s'.workers ≡ length s.workers
Step-length {s = s} (take xs ys e less e') =
    ground (arith, length-append xs (idle ∷ ys), length-append xs (busy s.next ∷ ys))
Step-length (finish xs ys j ok e e') =
    ground (arith, length-append xs (busy j ∷ ys), length-append xs (idle ∷ ys))
Step-length (stop xs ys e over e') =
    ground (arith, length-append xs (idle ∷ ys), length-append xs (stopped ∷ ys))

Run-length :
    {n : ℕ} {on_error : Bool} {limit : Option ℕ} {k : ℕ} {s : State}
    → Run n on_error limit k s
    → length s.workers ≡ width n limit
unfolding start
Run-length {n} {limit = limit} begin = length-replicate (width n limit)
Run-length (next_step r st) = Step-length st ∙ Run-length r

abbrev pub IsStopped : Worker → Type 0
IsStopped idle = ⊥
IsStopped stopped = Unit
IsStopped (busy j) = ⊥

-- A worker that has not stopped, between the others.
Active : List Worker → Type 0
Active ws =
    (xs : List Worker) × (ys : List Worker) × ((ws ≡ xs ++ idle ∷ ys)
      ⊎ ((i : ℕ) × (ws ≡ xs ++ busy i ∷ ys)))

after_stopped : (ws : List Worker) → Active ws → Active (stopped ∷ ws)
unfolding Active
after_stopped ws (xs, ys, inl e) = (stopped ∷ xs, ys, inl (ap (λ l. stopped ∷ l) e))
after_stopped ws (xs, ys, inr (i, e)) = (stopped ∷ xs, ys, inr (i, ap (λ l. stopped ∷ l) e))

some_worker_left : (ws : List Worker) → All IsStopped ws ⊎ Active ws
unfolding Active
some_worker_left [] = inl tt
some_worker_left (idle ∷ ws) = inr ([], ws, inl refl)
some_worker_left (busy i ∷ ws) = inr ([], ws, inr (i, refl))
some_worker_left (stopped ∷ ws) = elim (some_worker_left ws) [
  | inl h ↦ inl (tt, h)
  | inr h ↦ inr (after_stopped ws h)
]

active-Step :
    (n : ℕ) (on_error : Bool) (s : State) → Active s.workers → (s' : State) × Step n on_error s s'
unfolding Active
active-Step n on_error s (xs, ys, inr (i, e)) = (_, finish xs ys i true e refl)
active-Step n on_error s (xs, ys, inl e) = elim (Bool-cases (ltb s.next n)) [
  | inl more ↦ (_, take xs ys e (ground (arith, more)) refl)
  | inr over ↦ (_, stop xs ys e (ground (arith, over)) refl)
]

-- Whatever the order of the steps: a run has at most two steps for each item and one for each worker, and
-- it can go on until all workers have stopped. There are never more calls than workers, and no item is
-- called more than once at a time or again.
pub runs_end :
    {n : ℕ} {on_error : Bool} {limit : Option ℕ} {k : ℕ} {s : State} (i : ℕ)
    → Run n on_error limit k s
    → (k ≤ 2 * n + width n limit)
      × (All IsStopped s.workers ⊎ ((s' : State) × Step n on_error s s'))
      × (length s.workers ≡ width n limit)
      × (running i s.workers + times i s.finished ≤ 1)
unfolding Accounted
runs_end {n} {on_error} {s = s} i r = (
  omega (arith, Run-left r),
  elim (some_worker_left s.workers) [ inl h ↦ inl h | inr h ↦ inr (active-Step n on_error s h) ],
  Run-length r,
  ground (arith, Run-Accounted r i),
)

-- How many workers have stopped.
stops : List Worker → ℕ
stops [] = 0
stops (idle ∷ ws) = stops ws
stops (stopped ∷ ws) = 1 + stops ws
stops (busy j ∷ ws) = stops ws

stops-append : (xs ys : List Worker) → stops (xs ++ ys) ≡ stops xs + stops ys
unfolding stops
stops-append [] ys = omega arith
stops-append (idle ∷ xs) ys = stops-append xs ys
stops-append (stopped ∷ xs) ys = omega (arith, stops-append xs ys)
stops-append (busy j ∷ xs) ys = stops-append xs ys

stops-idle : (k : ℕ) → stops (replicate k idle) ≡ 0
unfolding stops
stops-idle zero = refl
stops-idle (suc k) = stops-idle k

-- No more than `n` items are taken, and a worker stops only when all are.
abbrev AllTaken : ℕ → State → Type 0
AllTaken n s = (s.next ≤ n) × ((stops s.workers ≡ 0) ⊎ (n ≤ s.next))

Step-AllTaken :
    {n : ℕ} {on_error : Bool} {s s' : State} → Step n on_error s s' → AllTaken n s → AllTaken n s'
unfolding stops
Step-AllTaken {s = s} (take xs ys e less e') h =
    ground (arith, stops-append xs (idle ∷ ys), stops-append xs (busy s.next ∷ ys))
Step-AllTaken (finish xs ys j ok e e') h =
    ground (arith, stops-append xs (busy j ∷ ys), stops-append xs (idle ∷ ys))
Step-AllTaken (stop xs ys e over e') h = ground arith

Run-AllTaken :
    {n : ℕ} {on_error : Bool} {limit : Option ℕ} {k : ℕ} {s : State}
    → Run n on_error limit k s
    → AllTaken n s
unfolding start
Run-AllTaken {n} {limit = limit} begin = ground (arith, stops-idle (width n limit))
Run-AllTaken (next_step r st) = Step-AllTaken st (Run-AllTaken r)

nothing_running :
    (i : ℕ) (ws : List Worker) → All IsStopped ws → (running i ws ≡ 0) × (stops ws ≡ length ws)
unfolding running stops
nothing_running i [] h = (refl, refl)
nothing_running i (idle ∷ ws) h = absurd h.0
nothing_running i (busy j ∷ ws) h = absurd h.0
nothing_running i (stopped ∷ ws) h = ground (arith, nothing_running i ws h.1)

-- When all workers have stopped, so that the call resolves, each of the `n` items has had exactly one
-- call, whichever calls have failed, and nothing else has had one.
pub each_item_once :
    {n : ℕ} {on_error : Bool} {limit : Option ℕ} {k : ℕ} {s : State} (i : ℕ)
    → Run n on_error limit k s
    → All IsStopped s.workers
    → times i s.finished ≡ (if ltb i n then 1 else 0)
unfolding Accounted
each_item_once {n} {limit = limit} {s = s} i r h =
    ground (arith, Run-Accounted r i, nothing_running i s.workers h, Run-AllTaken r, Run-length r)
