-- ===== src/Utils/Censor/Pruning.antt =====
-- On src/utils/censor.js. The censor's shortcuts change no verdict.
use mathlib.Core.List.{reverse, reverse-cons}
use live_server.Common.{
  ℕ, suc, ◌+◌, ◌≤◌, ◌<◌, ◌≡◌, refl, ap, ◌∙◌, max, Bool, true, false, ◌||◌, inl, inr, List, [], ◌∷◌,
  length, length-append, arith, ltb, Bool-cases,
}
use live_server.Utils.Censor.{
  Text, to_lower_case, get_levenshtein_distance, reaches, pruned, is_banned_word,
}
use live_server.Utils.Censor.Distance.{Edits, nothing, keep, drop, add, change, levenshtein-Edits}

Edits-length :
    {p q : Text} {n : ℕ} → Edits p q n → (length p ≤ n + length q) × (length q ≤ n + length p)
Edits-length nothing = omega arith
Edits-length (keep c e) = omega (arith, Edits-length e)
Edits-length (drop c e) = omega (arith, Edits-length e)
Edits-length (add d e) = omega (arith, Edits-length e)
Edits-length (change c d e) = omega (arith, Edits-length e)

length-reverse : (s : Text) → length (reverse s) ≡ length s
length-reverse [] = refl
length-reverse (c ∷ s) =
    ap length (reverse-cons c s)
    ∙ length-append (reverse s) (c ∷ [])
    ∙ omega (arith, length-reverse s)

pub length-lower : (s : Text) → length (to_lower_case s) ≡ length s
length-lower [] = refl
length-lower (c ∷ s) = ap suc (length-lower s)

levenshtein_length :
    (s1 s2 : Text)
    → (length s1 ≤ get_levenshtein_distance s1 s2 + length s2)
      × (length s2 ≤ get_levenshtein_distance s1 s2 + length s1)
levenshtein_length s1 s2 = omega (
  arith,
  Edits-length (levenshtein-Edits s1 s2),
  length-reverse (to_lower_case s1),
  length-reverse (to_lower_case s2),
  length-lower s1,
  length-lower s2,
)

reaches-pruned :
    (threshold : ℕ) (s1 s2 : Text)
    → 0 < max (length s1) (length s2)
    → pruned threshold s1 s2 ≡ true
    → reaches threshold s1 s2 ≡ false
unfolding reaches
reaches-pruned threshold s1 s2 some_char cut = elim (Bool-cases (ltb (length s2) (length s1))) [
  | inl e ↦ rw e (ground (arith, e, some_char, cut, levenshtein_length s1 s2))
  | inr e ↦ rw e (ground (arith, e, some_char, cut, levenshtein_length s2 s1))
]

-- The verdict without a shortcut: whether some banned word is similar enough.
pub is_similar : Text → List Text → ℕ → Bool
is_similar part [] threshold = false
is_similar part (w ∷ ws) threshold = reaches threshold part w || is_similar part ws threshold

pub banned-is_similar :
    (part : Text) (words : List Text) (threshold : ℕ)
    → 0 < length part
    → is_banned_word part words threshold ≡ is_similar part words threshold
unfolding is_banned_word is_similar
banned-is_similar part [] threshold some_char = refl
banned-is_similar part (w ∷ ws) threshold some_char =
    let some_max : 0 < max (length part) (length w) = omega (arith, some_char) in
    elim (Bool-cases (pruned threshold part w)) [
      | inl cut ↦ ground (
        arith,
        cut,
        some_max,
        reaches-pruned threshold part w some_max cut,
        banned-is_similar part ws threshold some_char,
      )
      | inr long ↦ ground (arith, long, some_max, banned-is_similar part ws threshold some_char)
    ]
