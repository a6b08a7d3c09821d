-- ===== src/Order/Counts.antt =====
-- Lists without repetitions, by how often a number stands in them.
use rul_checker.Prelude.{
  ℕ, zero, suc, ◌+◌, ◌≤◌, ◌<◌, ◌≡◌, refl, subst, List, [], ◌∷◌, ◌++◌, length, arith, All,
  if◌then◌else◌, ◌==◌, Bool-cases, inl, inr,
}
use rul_checker.Order.{push}
use rul_checker.Order.Edges.{count}

pub count-append : (v : ℕ) (xs ys : List ℕ) → count v (xs ++ ys) ≡ count v xs + count v ys
count-append v [] ys = omega arith
count-append v (x ∷ xs) ys = ground (arith, count-append v xs ys)

pub count-push : (v x : ℕ) (q : List ℕ) → count x (push v q) ≡ count x (v ∷ q)
unfolding push
count-push v x [] = refl
count-push v x (w ∷ q) = ground (arith, count-push v x q)

-- A number that fails where all members hold is no member.
pub count-none : (P : ℕ → Type 0) (x : ℕ) (xs : List ℕ) → All P xs → (P x → ⊥) → count x xs ≡ 0
count-none P x [] h fails = refl
count-none P x (y ∷ xs) h fails = elim (Bool-cases (y == x)) [
  | inl same ↦ let eq : y ≡ x = ground arith in absurd (fails (subst P eq h.0))
  | inr differ ↦ rw differ (count-none P x xs h.1 fails)
]

without : ℕ → List ℕ → List ℕ
without n [] = []
without n (x ∷ xs) = let rest = without n xs in if x == n then rest else x ∷ rest

length-without : (n : ℕ) (xs : List ℕ) → length xs ≡ count n xs + length (without n xs)
unfolding without
length-without n [] = refl
length-without n (x ∷ xs) = ground (arith, length-without n xs)

count-without : (n x : ℕ) (xs : List ℕ) → count x (without n xs) ≤ count x xs
unfolding without
count-without n x [] = omega arith
count-without n x (y ∷ xs) = ground (arith, count-without n x xs)

All-without : (n : ℕ) (xs : List ℕ) → All (λ x. x < suc n) xs → All (λ x. x < n) (without n xs)
unfolding without
All-without n [] h = tt
All-without n (x ∷ xs) h = elim (Bool-cases (x == n)) [
  | inl same ↦ rw same (All-without n xs h.1)
  | inr differ ↦ rw differ (ground (arith, h.0), All-without n xs h.1)
]

-- Below `n` there are at most `n` numbers.
pub length-le_of_distinct :
    (n : ℕ) (xs : List ℕ) → All (λ x. x < n) xs → ((x : ℕ) → count x xs ≤ 1) → length xs ≤ n
length-le_of_distinct zero [] h d = omega arith
length-le_of_distinct zero (x ∷ xs) h d = absurd (omega (arith, h.0))
length-le_of_distinct (suc n) xs h d = omega (
  arith,
  length-without n xs,
  d n,
  length-le_of_distinct n (without n xs) (All-without n xs h)
      (λ x. omega (arith, count-without n x xs, d x)),
)
