-- ===== src/Stream/Duration/RoundTrip.antt =====
-- On src/routes/service/serviceLive.js. A formatted duration reads back as the same number of seconds.
use live_server.Common.{
  ℕ, zero, suc, ◌+◌, ◌*◌, ◌/◌, ◌%◌, ◌<◌, ◌≡◌, refl, sym, ap, ◌∙◌, List, [], ◌∷◌, ◌++◌, arith, ltb,
  inl, inr, Bool-cases, append_assoc, append-nil,
}
use live_server.Stream.Duration.{Char, digit, colon, digits, pad_start, two_digits, format_duration}

-- A reader of `h:m:s` texts: `total` is what the fields before say, in units of the field at hand.
unfoldable pub read_clock : List Char → ℕ → ℕ → ℕ
read_clock [] total field = total + field
read_clock (digit d ∷ cs) total field = read_clock cs total (field * 10 + d)
read_clock (colon ∷ cs) total field = read_clock cs ((total + field) * 60) 0

read_clock-digits :
    (fuel v : ℕ) (rest : List Char) (total : ℕ)
    → v < fuel
    → read_clock (digits fuel v ++ rest) total 0 ≡ read_clock rest total v
unfolding read_clock
read_clock-digits zero v rest total h = absurd (omega arith)
read_clock-digits (suc fuel) v rest total h = elim (Bool-cases (ltb v 10)) [
  | inl e ↦ rw e (ap (read_clock rest total) (omega arith))
  | inr e ↦ rw e (
      ap (λ cs. read_clock cs total 0)
        (append_assoc (digits fuel (v / 10)) (digit (v % 10) ∷ []) rest)
      ∙ read_clock-digits fuel (v / 10) (digit (v % 10) ∷ rest) total (ground arith)
      ∙ ap (read_clock rest total) (omega arith))
]

read_clock-pad_start :
    (cs rest : List Char) (total : ℕ)
    → read_clock (pad_start cs ++ rest) total 0 ≡ read_clock (cs ++ rest) total 0
unfolding read_clock
read_clock-pad_start [] rest total = refl
read_clock-pad_start (c ∷ []) rest total = refl
read_clock-pad_start (c ∷ d ∷ cs) rest total = refl

read_clock-two_digits :
    (v : ℕ) (rest : List Char) (total : ℕ)
    → read_clock (two_digits v ++ rest) total 0 ≡ read_clock rest total v
read_clock-two_digits v rest total =
    read_clock-pad_start (digits (suc v) v) rest total
    ∙ read_clock-digits (suc v) v rest total (omega arith)

-- Every number of seconds, formatted as `HH:MM:SS` (with more digits of hours where they are needed) and
-- read back field by field, is the same number.
pub format-read_clock : (secs : ℕ) → read_clock (format_duration secs) 0 0 ≡ secs
unfolding format_duration read_clock
format-read_clock secs =
    read_clock-two_digits (secs / 3600)
      (colon ∷ two_digits (secs % 3600 / 60) ++ (colon ∷ two_digits (secs % 60))) 0
    ∙ read_clock-two_digits (secs % 3600 / 60) (colon ∷ two_digits (secs % 60))
        ((0 + secs / 3600) * 60)
    ∙ ap (λ cs. read_clock cs (((0 + secs / 3600) * 60 + secs % 3600 / 60) * 60) 0)
        (sym (append-nil (two_digits (secs % 60))))
    ∙ read_clock-two_digits (secs % 60) [] (((0 + secs / 3600) * 60 + secs % 3600 / 60) * 60)
    ∙ omega arith
