-- ===== src/Utils/Censor/Distance.antt =====
-- On src/utils/censor.js. The distance that two rows of costs compute is the least number of edits.
use mathlib.Core.List.{reverse, reverse-cons}
use live_server.Common.{
  ℕ, suc, ◌+◌, ◌≤◌, ◌≡◌, refl, ap, ◌∙◌, sym, subst, min, ◌⊎◌, inl, inr, List, [], ◌∷◌, ◌++◌, length,
  arith, ◌==◌, ==→eq, ==_refl, if◌then◌else◌, Bool-cases, append_assoc, append-nil,
}
use live_server.Utils.Censor.{
  Text, first_row, next_row, rows, last_cost, to_lower_case, get_levenshtein_distance,
}

-- The distance of two texts that are read from the back.
pub dist : Text → Text → ℕ
dist [] q = length q
dist (c ∷ p) [] = suc (length p)
dist (c ∷ p) (d ∷ q) =
    let skip = dist p q in
    let drop = dist p (d ∷ q) in
    let add = dist (c ∷ p) q in if c == d then skip else min (min skip add) drop + 1

-- The distances of one text from the beginnings of another: `acc` is what comes before, backwards.
row_of : Text → Text → Text → List ℕ
row_of p acc [] = dist p acc ∷ []
row_of p acc (b ∷ bs) = dist p acc ∷ row_of p (b ∷ acc) bs

dist-nil : (p : Text) → dist p [] ≡ length p
unfolding dist
dist-nil [] = refl
dist-nil (c ∷ p) = refl

first_row-row_of : (acc bs : Text) → first_row (length acc) bs ≡ row_of [] acc bs
unfolding dist row_of
first_row-row_of acc [] = refl
first_row-row_of acc (b ∷ bs) =
    let next : length acc + 1 ≡ suc (length acc) = omega arith in
    ap (λ k. length acc ∷ first_row k bs) next
    ∙ ap (λ l. length acc ∷ l) (first_row-row_of (b ∷ acc) bs)

next_row-row_of :
    (c : ℕ) (p acc bs : Text)
    → next_row c (dist (c ∷ p) acc) (row_of p acc bs) bs ≡ row_of (c ∷ p) acc bs
unfolding next_row row_of dist
next_row-row_of c p acc [] = refl
next_row-row_of c p acc (b ∷ []) = refl
next_row-row_of c p acc (b ∷ b' ∷ bs) =
    ap (λ l. dist (c ∷ p) acc ∷ l) (next_row-row_of c p (b ∷ acc) (b' ∷ bs))

last_cost-row_of : (p acc bs : Text) → last_cost (row_of p acc bs) ≡ dist p (reverse bs ++ acc)
unfolding row_of
last_cost-row_of p acc [] = refl
last_cost-row_of p acc (b ∷ []) = refl
last_cost-row_of p acc (b ∷ b' ∷ bs) =
    last_cost-row_of p (b ∷ acc) (b' ∷ bs)
    ∙ ap (dist p) (
        sym (
          ap (λ r. r ++ acc) (reverse-cons b (b' ∷ bs))
          ∙ append_assoc (reverse (b' ∷ bs)) (b ∷ []) acc))

rows-row_of :
    (cs p bs : Text) → rows cs (length p) (row_of p [] bs) bs ≡ row_of (reverse cs ++ p) [] bs
unfolding rows dist
rows-row_of [] p bs = refl
rows-row_of (c ∷ cs) p bs =
    let next : length p + 1 ≡ suc (length p) = omega arith in
    ap (λ k. rows cs k (next_row c k (row_of p [] bs) bs) bs) next
    ∙ ap (λ row. rows cs (suc (length p)) row bs) (next_row-row_of c p [] bs)
    ∙ rows-row_of cs (c ∷ p) bs
    ∙ ap (λ r. row_of r [] bs)
        (sym (ap (λ r. r ++ p) (reverse-cons c cs) ∙ append_assoc (reverse cs) (c ∷ []) p))

-- Edits that turn one text into another, both read from the back, with their number.
pub data Edits : Text → Text → ℕ → Type 0 where
  nothing : Edits [] [] 0
  keep : {p q : Text} {n : ℕ} (c : ℕ) → Edits p q n → Edits (c ∷ p) (c ∷ q) n
  drop : {p q : Text} {n : ℕ} (c : ℕ) → Edits p q n → Edits (c ∷ p) q (suc n)
  add : {p q : Text} {n : ℕ} (d : ℕ) → Edits p q n → Edits p (d ∷ q) (suc n)
  change : {p q : Text} {n : ℕ} (c d : ℕ) → Edits p q n → Edits (c ∷ p) (d ∷ q) (suc n)

-- One character more changes a distance by one at most.
abbrev Near : Text → Text → Type 0
Near p q =
    (a : ℕ)
    → (dist p q ≤ dist (a ∷ p) q + 1)
      × (dist (a ∷ p) q ≤ dist p q + 1)
      × (dist p q ≤ dist p (a ∷ q) + 1)
      × (dist p (a ∷ q) ≤ dist p q + 1)

step-Near : (c : ℕ) (p : Text) → ((q : Text) → Near p q) → (q : Text) → Near (c ∷ p) q
unfolding dist
step-Near c p ih [] a = ground (arith, ih [] a, ih [] c, dist-nil p)
step-Near c p ih (d ∷ q) a =
    ground (arith, step-Near c p ih q a, step-Near c p ih q d, ih (d ∷ q) a, ih (d ∷ q) c)

nil-Near : (q : Text) → Near [] q
unfolding dist
nil-Near [] a = ground arith
nil-Near (d ∷ q) a = ground (arith, nil-Near q a)

near : (p q : Text) → Near p q
near [] q = nil-Near q
near (c ∷ p) q = step-Near c p (near p) q

dist-least : {p q : Text} {n : ℕ} → Edits p q n → dist p q ≤ n
unfolding dist
dist-least nothing = omega arith
dist-least (keep c e) = ground (arith, ==_refl c, dist-least e)
dist-least (drop {p} {q} c e) = omega (arith, dist-least e, (near p q c).1)
dist-least (add {p} {q} d e) = omega (arith, dist-least e, (near p q d).3)
dist-least (change c d e) = ground (arith, dist-least e)

added : (q : Text) → Edits [] q (length q)
added [] = nothing
added (d ∷ q) = add d (added q)

-- The three ways to reach a distance.
least_of_three :
    (a b c : ℕ) → (min (min a b) c ≡ a) ⊎ ((min (min a b) c ≡ b) ⊎ (min (min a b) c ≡ c))
least_of_three a b c = ground arith

attained_step :
    (c : ℕ) (p : Text)
    → ((q : Text) → Edits p q (dist p q))
    → (q : Text) → Edits (c ∷ p) q (dist (c ∷ p) q)
unfolding dist
attained_step c p ih [] = drop c (subst (Edits p []) (dist-nil p) (ih []))
attained_step c p ih (d ∷ q) =
    let skip : ℕ = dist p q in
    let more : ℕ = dist (c ∷ p) q in
    let less : ℕ = dist p (d ∷ q) in
    let least : ℕ = min (min skip more) less + 1 in
    elim (Bool-cases (c == d)) [
      | inl e ↦ rw e (subst (λ d'. Edits (c ∷ p) (d' ∷ q) skip) (==→eq c d e) (keep c (ih q)))
      | inr e ↦ rw e (elim (least_of_three skip more less) [
        | inl h ↦
            let n : suc skip ≡ least = omega (arith, h) in
            subst (Edits (c ∷ p) (d ∷ q)) n (change c d (ih q))
        | inr (inl h) ↦
            let n : suc more ≡ least = omega (arith, h) in
            subst (Edits (c ∷ p) (d ∷ q)) n (add d (attained_step c p ih q))
        | inr (inr h) ↦
            let n : suc less ≡ least = omega (arith, h) in
            subst (Edits (c ∷ p) (d ∷ q)) n (drop c (ih (d ∷ q)))
      ])
    ]

attained : (p q : Text) → Edits p q (dist p q)
unfolding dist
attained [] q = added q
attained (c ∷ p) q = attained_step c p (attained p) q

levenshtein-dist :
    (s1 s2 : Text)
    → get_levenshtein_distance s1 s2
      ≡ dist (reverse (to_lower_case s1)) (reverse (to_lower_case s2))
unfolding get_levenshtein_distance
levenshtein-dist s1 s2 =
    let a : Text = to_lower_case s1 in
    let b : Text = to_lower_case s2 in
    ap (λ row. last_cost (rows a 0 row b)) (first_row-row_of [] b)
    ∙ ap last_cost (rows-row_of a [] b)
    ∙ last_cost-row_of (reverse a ++ []) [] b
    ∙ ap (λ p. dist p (reverse b ++ [])) (append-nil (reverse a))
    ∙ ap (dist (reverse a)) (append-nil (reverse b))

pub levenshtein-Edits :
    (s1 s2 : Text)
    → Edits
        (reverse (to_lower_case s1))
        (reverse (to_lower_case s2))
        (get_levenshtein_distance s1 s2)
levenshtein-Edits s1 s2 =
    let a : Text = reverse (to_lower_case s1) in
    let b : Text = reverse (to_lower_case s2) in
    subst (Edits a b) (sym (levenshtein-dist s1 s2)) (attained a b)

-- The distance that the rows of costs compute is the least number of edits (of one character that is
-- dropped, added or changed) from the one text to the other, upper and lower case aside: so many edits
-- do it, and any that do are no fewer.
pub distance_least :
    (s1 s2 : Text) (n : ℕ)
    → Edits (reverse (to_lower_case s1)) (reverse (to_lower_case s2)) n
    → Edits
        (reverse (to_lower_case s1))
        (reverse (to_lower_case s2))
        (get_levenshtein_distance s1 s2)
      × (get_levenshtein_distance s1 s2 ≤ n)
distance_least s1 s2 n e =
    (levenshtein-Edits s1 s2, subst (λ d. d ≤ n) (sym (levenshtein-dist s1 s2)) (dist-least e))
