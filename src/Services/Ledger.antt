-- ===== src/Services/Ledger.antt =====
-- src/services/ledgerClient.js: the client of the ledger API. What `fetch` does on the k-th attempt and
-- how long it takes are arguments; request ids, messages and error codes are numbers.
pub mod Retries
use live_server.Common.{
  ℕ, zero, suc, ◌+◌, ◌-◌, min, max, Bool, true, false, ◌&&◌, ◌||◌, not, Option, none, some, List,
  [], ◌∷◌, ◌==◌, ltb, leb, if◌then◌else◌, or_else,
}

abbrev pub attempt_timeout_ms : ℕ
attempt_timeout_ms = 18000

abbrev pub total_budget_ms : ℕ
total_budget_ms = 19000

abbrev pub min_attempt_ms : ℕ
min_attempt_ms = 1000

abbrev pub retry_delays_ms : List ℕ
retry_delays_ms = 100 ∷ 300 ∷ []

-- RETRY_STATUS
abbrev pub retry_status : ℕ → Bool
retry_status s = s == 502 || s == 503 || s == 504

-- The codes of the API that the client knows, and any other.
pub data Code : Type 0 where
  insufficient_coins personal_coins_frozen duplicate_ledger_key gift_not_found : Code
  call_not_active invalid_call_state ledger_unavailable : Code
  other_code : ℕ → Code

-- A parsed body: its `code`, and the rest, which is handed on.
pub record Body : Type 0 where
  pub code : Option Code
  pub content : ℕ

-- `fetch` throws (by a timeout or not), or answers with a status and a body, if that parses.
pub data Reply : Type 0 where
  throws : Bool → Reply
  responds : ℕ → Option Body → Reply

pub record LedgerError : Type 0 where
  pub code : Option Code
  pub status : Option ℕ

pub data Result : Type 0 where
  returns : Option Body → Result
  fails : LedgerError → Result

-- One POST: its request id, when it starts and the timeout of its signal, both in ms from the start.
pub record Sent : Type 0 where
  pub request_id : ℕ
  pub at : ℕ
  pub timeout : ℕ

pub record Options : Type 0 where
  pub attempt_timeout : ℕ
  pub budget : ℕ

abbrev pub default_options : Options
default_options = record { attempt_timeout = attempt_timeout_ms; budget = total_budget_ms }

-- The call's outcome, whether some attempt timed out, what was sent, and the time it took.
pub record Outcome : Type 0 where
  pub result : Result
  pub timed_out : Bool
  pub sent : List Sent
  pub elapsed : ℕ

abbrev pub is_ok : ℕ → Bool
is_ok status = leb 200 status && ltb status 300

abbrev pub unavailable : Option ℕ → LedgerError
unavailable status = record { code = some ledger_unavailable; status = status }

abbrev body_code : Option Body → Option Code
body_code none = none
body_code (some b) = b.code

abbrev final : ℕ → Option Body → Result
final status body =
    if is_ok status
    then returns body
    else fails (record { code = body_code body; status = some status })

unfoldable pub attempt_timeout_at : Options → ℕ → ℕ
attempt_timeout_at o elapsed = max 1 (min o.attempt_timeout (o.budget - elapsed))

unfoldable pub too_late : Options → ℕ → Bool
too_late o elapsed = ltb o.budget (elapsed + min min_attempt_ms o.attempt_timeout)

-- What the k-th attempt answers, and how long it would take if its signal did not abort it.
abbrev pub Network : Type 0
Network = ℕ → Reply × ℕ

abbrev pub took : Options → Network → ℕ → ℕ → ℕ
took o net k start = min (net k).1 (attempt_timeout_at o start)

abbrev add_sent : Sent → Outcome → Outcome
add_sent s o = record o { sent = s ∷ o.sent }

abbrev give_up : LedgerError → Bool → ℕ → Outcome
give_up err timed_out elapsed = record {
  result = fails err;
  timed_out = timed_out;
  sent = [];
  elapsed = elapsed;
}

abbrev done : Result → Bool → ℕ → Outcome
done r timed_out elapsed = record {
  result = r;
  timed_out = timed_out;
  sent = [];
  elapsed = elapsed;
}

-- After an attempt: the answer, or the next attempt with the error that it leaves.
after_reply : Reply → Bool → ℕ → (LedgerError → Bool → Outcome) → Outcome
after_reply (throws timeout) timed_out elapsed retry =
    retry (unavailable none) (timed_out || timeout)
after_reply (responds status body) timed_out elapsed retry =
    if retry_status status
    then retry (unavailable (some status)) timed_out
    else done (final status body) timed_out elapsed

send : Options → ℕ → Network → ℕ → ℕ → Bool → (LedgerError → Bool → Outcome) → Outcome
unfolding after_reply
send o request_id net k elapsed timed_out retry =
    add_sent
      (record { request_id = request_id; at = elapsed; timeout = attempt_timeout_at o elapsed })
      (after_reply (net k).0 timed_out (elapsed + took o net k elapsed) retry)

-- The attempts after the first, each behind its delay.
retry_loop : Options → ℕ → Network → List ℕ → ℕ → ℕ → LedgerError → Bool → Outcome
retry_loop o request_id net [] k elapsed err timed_out = give_up err timed_out elapsed
retry_loop o request_id net (delay ∷ delays) k elapsed err timed_out =
    let start = elapsed + delay in
    let next = λ (e : LedgerError) (t : Bool).
      retry_loop o request_id net delays (suc k) (start + took o net k start) e t in
    if too_late o start
    then give_up err timed_out start
    else send o request_id net k start timed_out next

unfoldable pub call_ledger : Options → ℕ → Network → Outcome
unfolding send retry_loop
call_ledger o request_id net =
    send o request_id net 0 0 false
      (λ e t. retry_loop o request_id net retry_delays_ms 1 (took o net 0 0) e t)

-- `toLocalError`: the errors that the controllers match on.
pub data LocalError : Type 0 where
  message : ℕ → LocalError
  coins_frozen duplicate_gift : LocalError
  same : LedgerError → LocalError

pub record Messages : Type 0 where
  pub insufficient : ℕ
  pub not_found : Option ℕ
  pub not_active : Option ℕ
  pub invalid_state : Option ℕ

-- The default texts.
abbrev pub gift_not_found_text : ℕ
gift_not_found_text = 1

abbrev pub not_active_text : ℕ
not_active_text = 2

abbrev pub invalid_session_text : ℕ
invalid_session_text = 3

by_code : Option Code → LedgerError → Messages → LocalError
by_code none err m = same err
by_code (some insufficient_coins) err m = message m.insufficient
by_code (some personal_coins_frozen) err m = coins_frozen
by_code (some duplicate_ledger_key) err m = duplicate_gift
by_code (some gift_not_found) err m = message (or_else m.not_found gift_not_found_text)
by_code (some call_not_active) err m = message (or_else m.not_active not_active_text)
by_code (some invalid_call_state) err m = message (or_else m.invalid_state invalid_session_text)
by_code (some ledger_unavailable) err m = same err
by_code (some (other_code c)) err m = same err

unfoldable pub to_local_error : LedgerError → Messages → LocalError
unfolding by_code
to_local_error err m = by_code err.code err m
