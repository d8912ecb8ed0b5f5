-- ===== src/Utils/Censor/Memo.antt =====
-- On src/utils/censor.js. The memo of verdicts changes no text.
use live_server.Common.{
  ℕ, ◌≤◌, ◌<◌, ◌≡◌, refl, ap, ◌∙◌, subst, Bool, true, false, not, ◌&&◌, inl, inr, Option, none,
  some, List, [], ◌∷◌, map, length, arith, ◌==◌, ==→eq, leb, if◌then◌else◌, Bool-cases, All,
}
use live_server.Utils.Censor.{
  Text, to_lower_case, is_banned_word, is_word, has_text, safe_words, text_eq, Verdict, verdict_of,
  remember, verdict_cache_max, starred, censor_part, censor_parts, judged,
}
use live_server.Utils.Censor.Pruning.{is_similar, banned-is_similar, length-lower}

text_eq→eq : (s t : Text) → text_eq s t ≡ true → s ≡ t
text_eq→eq [] [] h = refl
text_eq→eq [] (b ∷ t) h = absurd (ground (arith, h))
text_eq→eq (a ∷ s) [] h = absurd (ground (arith, h))
text_eq→eq (a ∷ s) (b ∷ t) h = elim (Bool-cases (a == b)) [
  | inl e ↦ cc (==→eq a b e, text_eq→eq s t (ground (arith, h, e)))
  | inr e ↦ absurd (ground (arith, h, e))
]

module _ (words : List Text) (threshold : ℕ) where
  -- A text as it is shown without a memo.
  pub censored : Text → Text
  censored part =
      if is_word part && not (has_text safe_words (to_lower_case part))
      then starred (is_similar (to_lower_case part) words threshold) part
      else part

  -- A memo that says what `isBannedWord` says, and is not too long.
  abbrev RightVerdict : Verdict → Type 0
  RightVerdict v = v.is_banned ≡ is_banned_word v.word words threshold

  abbrev pub Right : List Verdict → Type 0
  Right vs = All RightVerdict vs × (length vs ≤ verdict_cache_max)

  verdict_of-Right :
      (vs : List Verdict) (t : Text) (b : Bool)
      → All RightVerdict vs
      → verdict_of vs t ≡ some b
      → b ≡ is_banned_word t words threshold
  verdict_of-Right [] t b h e = absurd (ground (arith, e))
  verdict_of-Right (v ∷ vs) t b h e = elim (Bool-cases (text_eq v.word t)) [
    | inl same ↦
        subst (λ u. b ≡ is_banned_word u words threshold) (text_eq→eq v.word t same)
          (ground (arith, e, same, h.0))
    | inr other ↦ verdict_of-Right vs t b h.1 (ground (arith, e, other))
  ]

  remember-Right :
      (vs : List Verdict) (t : Text)
      → Right vs
      → Right (remember vs t (is_banned_word t words threshold))
  remember-Right vs t h = elim (Bool-cases (leb verdict_cache_max (length vs))) [
    | inl full ↦ rw full ((refl, tt), omega arith)
    | inr room ↦ rw room ((refl, h.0), ground (arith, room))
  ]

  judged-Right :
      (vs : List Verdict) (part : Text) (known : Option Bool)
      → Right vs
      → 0 < length part
      → verdict_of vs (to_lower_case part) ≡ known
      → (Right (judged words threshold vs part known).0)
        × ((judged words threshold vs part known).1
            ≡ starred (is_similar (to_lower_case part) words threshold) part)
  judged-Right vs part (some b) h some_char e = (
    h,
    ap (λ v. starred v part)
        (verdict_of-Right vs (to_lower_case part) b h.0 e
          ∙ banned-is_similar (to_lower_case part) words threshold
              (omega (arith, some_char, length-lower part))),
  )
  judged-Right vs part none h some_char e = (
    remember-Right vs (to_lower_case part) h,
    ap (λ v. starred v part)
        (banned-is_similar (to_lower_case part) words threshold
          (omega (arith, some_char, length-lower part))),
  )

  word-length : (part : Text) → is_word part ≡ true → 0 < length part
  word-length [] h = absurd (ground (arith, h))
  word-length (c ∷ cs) h = omega arith

  -- What the censor says of one part, as far as the theorem needs it.
  Exact : Text → List Verdict × Text → Type 0
  Exact part r = Right r.0 × (r.1 ≡ censored part)

  if-Exact :
      (part : Text) (b : Bool) (x y : List Verdict × Text)
      → (b ≡ true → Exact part x)
      → (b ≡ false → Exact part y)
      → Exact part (if b then x else y)
  if-Exact part true x y h k = h refl
  if-Exact part false x y h k = k refl

  censor_part-Exact :
      (vs : List Verdict) (part : Text)
      → Right vs
      → Exact part (censor_part words threshold vs part)
  unfolding Exact censored
  censor_part-Exact vs part h =
      if-Exact part (not (is_word part)) _ _ (λ other. (h, ground (arith, other)))
        (λ word.
          if-Exact part (has_text safe_words (to_lower_case part)) _ _
            (λ safe. (h, ground (arith, word, safe)))
            (λ unsafe.
              let some_char : 0 < length part = word-length part (ground (arith, word)) in
              let r = judged-Right vs part (verdict_of vs (to_lower_case part)) h some_char refl in
              (r.0, ground (arith, word, unsafe, r.1))))

  -- With a memo of right verdicts, every part is shown as without one, the memo stays right, and it never
  -- has more than its bound of verdicts.
  pub censor_parts-exact :
      (vs : List Verdict) (parts : List Text)
      → Right vs
      → let (vs', shown) = censor_parts words threshold vs parts in
        Right vs' × (shown ≡ map censored parts)
  unfolding censor_parts Exact
  censor_parts-exact vs [] h = (h, refl)
  censor_parts-exact vs (part ∷ parts) h =
      let one = censor_part-Exact vs part h in
      let more = censor_parts-exact (censor_part words threshold vs part).0 parts one.0 in
      (more.0, cc (one.1, more.1))
