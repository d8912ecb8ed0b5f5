-- ===== src/Services/Ledger/Retries.antt =====
-- On src/services/ledgerClient.js. What a call sends, how long it takes, and what decides it.
use live_server.Common.{
  ℕ, suc, ◌+◌, ◌≤◌, ◌≡◌, refl, Bool, false, List, [], ◌∷◌, arith, All, length, Bool-cases, inl, inr,
}
use live_server.Services.Ledger.{
  Reply, throws, responds, LedgerError, Result, Sent, Options, Outcome, Network, retry_status,
  retry_delays_ms, took, attempt_timeout_at, too_late, after_reply, send, retry_loop, call_ledger,
  done,
}

-- The same id, and an end within the budget.
abbrev pub Fits : Options → ℕ → Sent → Type 0
Fits o request_id s = (s.request_id ≡ request_id) × (s.at + s.timeout ≤ o.budget)

module _ (o : Options) (request_id : ℕ) (net : Network) where
  -- What holds of every retry, and of an answer at this time, holds after an attempt.
  reply-holds :
      (P : Outcome → Type 0) (r : Reply) (t : Bool) (elapsed : ℕ)
      (retry : LedgerError → Bool → Outcome)
      → ((e : LedgerError) (b : Bool) → P (retry e b))
      → ((x : Result) → P (done x t elapsed))
      → P (after_reply r t elapsed retry)
  unfolding after_reply
  reply-holds P (throws timeout) t elapsed retry h g = h _ _
  reply-holds P (responds status body) t elapsed retry h g =
      elim (Bool-cases (retry_status status)) [ inl e ↦ rw e (h _ _) | inr e ↦ rw e (g _) ]

  -- At most `n` attempts, each with the id and within the budget, and an end soon after it.
  record IsBounded (n : ℕ) (x : Outcome) : Type 0 where
    fits : All (Fits o request_id) x.sent
    few : length x.sent ≤ n
    soon : x.elapsed ≤ o.budget + 300

  start_fits :
      (start : ℕ)
      → too_late o start ≡ false
      → 1 ≤ o.attempt_timeout
      → start + attempt_timeout_at o start ≤ o.budget
  unfolding too_late attempt_timeout_at
  start_fits start early pos = ground arith

  retry_loop-IsBounded :
      (delays : List ℕ) (k elapsed : ℕ) (e : LedgerError) (t : Bool)
      → 1 ≤ o.attempt_timeout
      → All (λ d. d ≤ 300) delays
      → elapsed ≤ o.budget
      → IsBounded (length delays) (retry_loop o request_id net delays k elapsed e t)
  unfolding retry_loop send
  retry_loop-IsBounded [] k elapsed e t pos ds le = record {
    fits = tt;
    few = omega arith;
    soon = omega arith;
  }
  retry_loop-IsBounded (delay ∷ delays) k elapsed e t pos ds le =
      let start = elapsed + delay in
      elim (Bool-cases (too_late o start)) [
        | inl late ↦ rw late (record { fits = tt; few = omega arith; soon = omega arith })
        | inr early ↦
            let fit = start_fits start early pos in
            let rest =
              reply-holds (IsBounded (length delays)) (net k).0 t (start + took o net k start) _
                (λ e' t'.
                  retry_loop-IsBounded delays (suc k) (start + took o net k start) e' t' pos ds.1
                    (omega arith))
                (λ x. record { fits = tt; few = omega arith; soon = omega arith }) in
            rw early (record {
              fits = ((refl, fit), rest.fits);
              few = omega (arith, rest.few);
              soon = rest.soon;
            })
      ]

  first_fits : 1 ≤ o.budget → 0 + attempt_timeout_at o 0 ≤ o.budget
  unfolding attempt_timeout_at
  first_fits pos = ground arith

  call_ledger-IsBounded :
      1 ≤ o.attempt_timeout → 1 ≤ o.budget → IsBounded 3 (call_ledger o request_id net)
  unfolding call_ledger send
  call_ledger-IsBounded pos some_budget =
      let fit = first_fits some_budget in
      let rest =
        reply-holds (IsBounded 2) (net 0).0 false (0 + took o net 0 0) _
          (λ e t.
            retry_loop-IsBounded retry_delays_ms 1 (took o net 0 0) e t pos (omega arith)
              (omega arith))
          (λ x. record { fits = tt; few = omega arith; soon = omega arith }) in
      record { fits = ((refl, fit), rest.fits); few = omega (arith, rest.few); soon = rest.soon }

  -- There are at most three attempts; every one carries the same request id, and its timeout ends it
  -- within the budget; the call is over at most 300 ms, the last delay, after the budget.
  pub call_ledger_bounds :
      1 ≤ o.attempt_timeout
      → 1 ≤ o.budget
      → let x = call_ledger o request_id net in
        All (Fits o request_id) x.sent × (length x.sent ≤ 3) × (x.elapsed ≤ o.budget + 300)
  call_ledger_bounds pos some_budget =
      let b = call_ledger-IsBounded pos some_budget in (b.fits, b.few, b.soon)
