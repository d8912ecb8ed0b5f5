-- ===== src/Utils/Censor.antt =====
-- src/utils/censor.js: the distance of two words, and the fuzzy censor. A text is a list of character
-- codes; only the letters of ASCII have two cases. A threshold is in hundredths, and quotients are
-- compared exactly, as products.
pub mod Distance
pub mod Pruning
pub mod Memo
use live_server.Common.{
  ℕ, zero, suc, ◌+◌, ◌-◌, ◌*◌, min, max, Bool, true, false, ◌&&◌, ◌||◌, not, Option, none, some,
  List, [], ◌∷◌, ◌++◌, map, length, replicate, ◌==◌, leb, ltb, if◌then◌else◌,
}

abbrev pub Text : Type 0
Text = List ℕ

-- `toLowerCase`
abbrev pub lower_char : ℕ → ℕ
lower_char c = if leb 65 c && leb c 90 then c + 32 else c

abbrev pub to_lower_case : Text → Text
to_lower_case s = map lower_char s

-- The costs of the empty text.
abbrev pub first_row : ℕ → Text → List ℕ
first_row k [] = k ∷ []
first_row k (b ∷ bs) = k ∷ first_row (k + 1) bs

-- `newValue`, from the cost before it in the last row, `lastValue`, and the cost above it.
abbrev pub new_value : ℕ → ℕ → ℕ → ℕ → ℕ → ℕ
new_value c b diagonal last above = if c == b then diagonal else min (min diagonal last) above + 1

-- The inner loop; `last` is `lastValue`. A row has one cost more than the text has characters, so that the
-- second and the fourth clause are not met.
unfoldable pub next_row : ℕ → ℕ → List ℕ → Text → List ℕ
next_row c last (d ∷ ds) [] = last ∷ []
next_row c last [] bs = last ∷ []
next_row c last (d ∷ d' ∷ ds) (b ∷ bs) = last ∷ next_row c (new_value c b d last d') (d' ∷ ds) bs
next_row c last (d ∷ []) (b ∷ bs) = last ∷ []

-- The outer loop, from row `i + 1` on.
unfoldable pub rows : Text → ℕ → List ℕ → Text → List ℕ
rows [] i row s2 = row
rows (c ∷ cs) i row s2 = rows cs (i + 1) (next_row c (i + 1) row s2) s2

-- `costs[s2.length]`
abbrev pub last_cost : List ℕ → ℕ
last_cost [] = 0
last_cost (d ∷ []) = d
last_cost (d ∷ d' ∷ ds) = last_cost (d' ∷ ds)

unfoldable pub get_levenshtein_distance : Text → Text → ℕ
unfolding next_row rows
get_levenshtein_distance s1 s2 =
    let b = to_lower_case s2 in last_cost (rows (to_lower_case s1) 0 (first_row 0 b) b)

-- `getSimilarity(s1, s2) >= threshold`, with the longer text first.
abbrev similar_enough : ℕ → Text → Text → Bool
similar_enough threshold longer shorter =
    leb (threshold * length longer)
      ((length longer - get_levenshtein_distance longer shorter) * 100)

unfoldable pub reaches : ℕ → Text → Text → Bool
reaches threshold s1 s2 =
    let longer = if ltb (length s2) (length s1) then s1 else s2 in
    let shorter = if ltb (length s2) (length s1) then s2 else s1 in
    if length longer == 0 then leb threshold 100 else similar_enough threshold longer shorter

-- The pair cannot reach the threshold.
abbrev pub pruned : ℕ → Text → Text → Bool
pruned threshold s1 s2 =
    ltb (min (length s1) (length s2) * 100) (threshold * max (length s1) (length s2))

unfoldable pub is_banned_word : Text → List Text → ℕ → Bool
is_banned_word part [] threshold = false
is_banned_word part (w ∷ ws) threshold =
    let rest = is_banned_word part ws threshold in
    if max (length part) (length w) == 0
    then leb threshold 100
    else if pruned threshold part w
    then rest
    else if reaches threshold part w
    then true
    else rest

-- SAFE_WORDS: shut, beach, sheet, came, duck, puck, push, dock, much, such, rich.
abbrev pub safe_words : List Text
safe_words =
    (115 ∷ 104 ∷ 117 ∷ 116 ∷ [])
    ∷ (98 ∷ 101 ∷ 97 ∷ 99 ∷ 104 ∷ [])
    ∷ (115 ∷ 104 ∷ 101 ∷ 101 ∷ 116 ∷ [])
    ∷ (99 ∷ 97 ∷ 109 ∷ 101 ∷ [])
    ∷ (100 ∷ 117 ∷ 99 ∷ 107 ∷ [])
    ∷ (112 ∷ 117 ∷ 99 ∷ 107 ∷ [])
    ∷ (112 ∷ 117 ∷ 115 ∷ 104 ∷ [])
    ∷ (100 ∷ 111 ∷ 99 ∷ 107 ∷ [])
    ∷ (109 ∷ 117 ∷ 99 ∷ 104 ∷ [])
    ∷ (115 ∷ 117 ∷ 99 ∷ 104 ∷ [])
    ∷ (114 ∷ 105 ∷ 99 ∷ 104 ∷ [])
    ∷ []

abbrev pub text_eq : Text → Text → Bool
text_eq [] [] = true
text_eq (a ∷ s) (b ∷ t) = (a == b) && text_eq s t
text_eq [] (b ∷ t) = false
text_eq (a ∷ s) [] = false

abbrev pub has_text : List Text → Text → Bool
has_text [] t = false
has_text (s ∷ ss) t = text_eq s t || has_text ss t

-- /^[a-zA-Z0-9\u0900-\u097F]+$/
abbrev is_word_char : ℕ → Bool
is_word_char c =
    (leb 97 c && leb c 122)
    || (leb 65 c && leb c 90)
    || (leb 48 c && leb c 57)
    || (leb 2304 c && leb c 2431)

abbrev all_word_chars : Text → Bool
all_word_chars [] = true
all_word_chars (c ∷ cs) = is_word_char c && all_word_chars cs

abbrev pub is_word : Text → Bool
is_word [] = false
is_word (c ∷ cs) = all_word_chars (c ∷ cs)

-- The memo of verdicts, by the word in lower case.
pub record Verdict : Type 0 where
  pub word : Text
  pub is_banned : Bool

abbrev pub verdict_of : List Verdict → Text → Option Bool
verdict_of [] t = none
verdict_of (v ∷ vs) t = if text_eq v.word t then some v.is_banned else verdict_of vs t

-- VERDICT_CACHE_MAX
abbrev pub verdict_cache_max : ℕ
verdict_cache_max = 5000

abbrev pub remember : List Verdict → Text → Bool → List Verdict
remember vs t banned =
    record { word = t; is_banned = banned } ∷ (if leb verdict_cache_max (length vs) then [] else vs)

abbrev pub starred : Bool → Text → Text
starred true part = replicate (length part) 42
starred false part = part

abbrev judged : List Text → ℕ → List Verdict → Text → Option Bool → List Verdict × Text
judged words threshold vs part (some banned) = (vs, starred banned part)
judged words threshold vs part none =
    let banned = is_banned_word (to_lower_case part) words threshold in
    (remember vs (to_lower_case part) banned, starred banned part)

abbrev pub censor_part : List Text → ℕ → List Verdict → Text → List Verdict × Text
censor_part words threshold vs part =
    if not (is_word part)
    then (vs, part)
    else if has_text safe_words (to_lower_case part)
    then (vs, part)
    else judged words threshold vs part (verdict_of vs (to_lower_case part))

-- `censorTextWithFuzzyMatch`, from the parts between the word boundaries on; `words` are in lower case.
unfoldable pub censor_parts : List Text → ℕ → List Verdict → List Text → List Verdict × List Text
censor_parts words threshold vs [] = (vs, [])
censor_parts words threshold vs (part ∷ parts) =
    let (vs', shown) = censor_part words threshold vs part in
    let (vs'', rest) = censor_parts words threshold vs' parts in (vs'', shown ∷ rest)
