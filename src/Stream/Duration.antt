-- ===== src/Stream/Duration.antt =====
-- `formatDurationHHMMSS` of src/routes/service/serviceLive.js, and the same code in
-- `endLiveStreamService`. A text is a list of characters: decimal digits and colons.
pub mod RoundTrip
use live_server.Common.{ℕ, zero, suc, ◌/◌, ◌%◌, List, [], ◌∷◌, ◌++◌, ltb, if◌then◌else◌}

pub data Char : Type 0 where
  digit : ℕ → Char
  colon : Char

-- `String(v)` on fuel: the fuel is more than `v`, so it is not used up.
abbrev pub digits : ℕ → ℕ → List Char
digits zero v = []
digits (suc fuel) v =
    let front = digits fuel (v / 10) in
    if ltb v 10 then digit v ∷ [] else front ++ digit (v % 10) ∷ []

-- `.padStart(2, '0')`
abbrev pub pad_start : List Char → List Char
pad_start [] = digit 0 ∷ digit 0 ∷ []
pad_start (c ∷ []) = digit 0 ∷ c ∷ []
pad_start (c ∷ d ∷ cs) = c ∷ d ∷ cs

abbrev pub two_digits : ℕ → List Char
two_digits v = pad_start (digits (suc v) v)

-- `totalSeconds` is a whole number that is not negative, so that `Math.max(0, parseInt(…) || 0)` is it.
unfoldable pub format_duration : ℕ → List Char
format_duration secs =
    two_digits (secs / 3600)
    ++ (colon ∷ two_digits (secs % 3600 / 60) ++ (colon ∷ two_digits (secs % 60)))
