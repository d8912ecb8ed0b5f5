-- ===== src/Utils/ForEachLimit.antt =====
-- src/utils/forEachLimit.js: the workers of one call on `n` items, as a step relation. A step is what a
-- worker does between two awaits, so that steps of several workers come in any order.
pub mod Runs
use live_server.Common.{
  ℕ, zero, suc, ◌+◌, ◌≤◌, ◌<◌, ◌≡◌, Bool, true, false, ◌||◌, min, max, Option, none, some, List, [],
  ◌∷◌, ◌++◌, replicate, ◌==◌, if◌then◌else◌,
}

-- `Math.max(1, Math.min(n, Math.floor(Number(limit)) || 1))`: `none` and 0 are limits that count as 1.
abbrev pub width : ℕ → Option ℕ → ℕ
width n none = max 1 (min n 1)
width n (some limit) = max 1 (min n (if limit == 0 then 1 else limit))

-- A worker at the test of its loop, in a call of `fn` on an item, or done.
pub data Worker : Type 0 where
  idle stopped : Worker
  busy : ℕ → Worker

pub record State : Type 0 where
  pub next : ℕ
  pub workers : List Worker
  -- the items whose call has ended, the last one first, and the error to throw, by its item
  pub finished : List ℕ
  pub first_err : Option ℕ

unfoldable pub start : ℕ → Option ℕ → State
start n limit = record {
  next = 0;
  workers = replicate (width n limit) idle;
  finished = [];
  first_err = none;
}

-- `if (onError) onError(err) else if (!firstErr) firstErr = err`
abbrev with_error : Option ℕ → Bool → ℕ → Option ℕ
with_error none caught i = if caught then none else some i
with_error (some first) caught i = some first

pub data Step (n : ℕ) (on_error : Bool) (s : State) (s' : State) : Type 0 where
  take :
      (xs ys : List Worker)
      → s.workers ≡ xs ++ idle ∷ ys
      → s.next < n
      → s' ≡ record s { next = s.next + 1; workers = xs ++ busy s.next ∷ ys }
      → Step n on_error s s'
  finish :
      (xs ys : List Worker) (i : ℕ) (ok : Bool)
      → s.workers ≡ xs ++ busy i ∷ ys
      → s' ≡ record s {
        workers = xs ++ idle ∷ ys;
        finished = i ∷ s.finished;
        first_err = with_error s.first_err (ok || on_error) i;
      }
      → Step n on_error s s'
  stop :
      (xs ys : List Worker)
      → s.workers ≡ xs ++ idle ∷ ys
      → n ≤ s.next
      → s' ≡ record s { workers = xs ++ stopped ∷ ys }
      → Step n on_error s s'

-- A run, with its number of steps.
pub data Run (n : ℕ) (on_error : Bool) (limit : Option ℕ) : ℕ → State → Type 0 where
  begin : Run n on_error limit 0 (start n limit)
  next_step :
      {k : ℕ} {s s' : State}
      → Run n on_error limit k s
      → Step n on_error s s'
      → Run n on_error limit (suc k) s'
