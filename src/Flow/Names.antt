-- ===== src/Flow/Names.antt =====
-- The names of the bit vectors, `new_local_name` of src/analysis/flow_analysis/intro_visitor.rs.
use mathlib.Core.List.{append_assoc}
use rul_checker.Prelude.{
  ℕ, zero, suc, ◌+◌, ◌-◌, ◌*◌, ◌/◌, ◌%◌, ◌≤◌, ◌<◌, ◌≡◌, refl, sym, ap, ◌∙◌, [], ◌∷◌, ◌++◌, arith,
  All, ltb, Bool-cases, inl, inr,
}
use rul_checker.Z3.{Name}
use rul_checker.Flow.{emit, to_string, underscore, new_local_name}

-- The number that decimal digits stand for, after those that make `acc`.
abbrev parse : ℕ → Name → ℕ
parse acc [] = acc
parse acc (c ∷ cs) = parse (acc * 10 + (c - b'0')) cs

abbrev IsDigit : ℕ → Type 0
IsDigit c = (b'0' ≤ c) × (c ≤ b'9')

parse-emit : (fuel n : ℕ) (out : Name) → n < fuel → parse 0 (emit fuel n out) ≡ parse n out
parse-emit zero n out h = absurd (omega arith)
parse-emit (suc fuel) n out h = elim (Bool-cases (ltb n 10)) [
  | inl last ↦ rw last (ap (λ (a : ℕ). parse a out) (omega arith))
  | inr more ↦ rw more (
      parse-emit fuel (n / 10) ((b'0' + n % 10) ∷ out) (ground arith)
      ∙ ap (λ (a : ℕ). parse a out) (omega arith))
]

emit-digits : (fuel n : ℕ) (out : Name) → All IsDigit out → All IsDigit (emit fuel n out)
emit-digits zero n out h = h
emit-digits (suc fuel) n out h = elim (Bool-cases (ltb n 10)) [
  | inl last ↦ rw last ((omega arith, ground arith), h)
  | inr more ↦
      rw more (emit-digits fuel (n / 10) ((b'0' + n % 10) ∷ out) ((omega arith, omega arith), h))
]

to_string-digits : (n : ℕ) → All IsDigit (to_string n)
unfolding to_string
to_string-digits n = emit-digits (suc n) n [] tt

parse-to_string : (n : ℕ) → parse 0 (to_string n) ≡ n
unfolding to_string
parse-to_string n = parse-emit (suc n) n [] (omega arith)

to_string_injective : (m n : ℕ) → to_string m ≡ to_string n → m ≡ n
to_string_injective m n h = sym (parse-to_string m) ∙ ap (parse 0) h ∙ parse-to_string n

-- Digits end at the first underscore.
split :
    (xs ys xs' ys' : Name)
    → All IsDigit xs
    → All IsDigit xs'
    → xs ++ (b'_' ∷ ys) ≡ xs' ++ (b'_' ∷ ys')
    → (xs ≡ xs') × (ys ≡ ys')
split [] ys [] ys' h k e = (refl, cc)
split [] ys (x ∷ xs') ys' h k e = let same : b'_' ≡ x = cc in absurd (omega (arith, k.0.1))
split (x ∷ xs) ys [] ys' h k e = let same : x ≡ b'_' = cc in absurd (omega (arith, h.0.1))
split (x ∷ xs) ys (x' ∷ xs') ys' h k e =
    let tail : xs ++ (b'_' ∷ ys) ≡ xs' ++ (b'_' ∷ ys') = cc in
    let (first, rest) = split xs ys xs' ys' h.1 k.1 tail in let same : x ≡ x' = cc in (cc, rest)

joined :
    (local bidx sidx : ℕ)
    → new_local_name local bidx sidx
      ≡ to_string bidx ++ (b'_' ∷ (to_string sidx ++ (b'_' ∷ to_string local)))
unfolding new_local_name
joined local bidx sidx =
    let b = to_string bidx in
    let s = to_string sidx in
    let l = to_string local in
    append_assoc (b ++ underscore ++ s) underscore l
    ∙ append_assoc (b ++ underscore) s (underscore ++ l)
    ∙ append_assoc b underscore (s ++ (underscore ++ l))

-- Two equal names are of the same local, block and statement.
pub new_local_name_injective :
    (local bidx sidx local' bidx' sidx' : ℕ)
    → new_local_name local bidx sidx ≡ new_local_name local' bidx' sidx'
    → (local ≡ local') × (bidx ≡ bidx') × (sidx ≡ sidx')
new_local_name_injective local bidx sidx local' bidx' sidx' e =
    let (blocks, rest) =
      split (to_string bidx) _ (to_string bidx') _ (to_string-digits bidx) (to_string-digits bidx')
        (sym (joined local bidx sidx) ∙ e ∙ joined local' bidx' sidx') in
    let (statements, locals) =
      split (to_string sidx) _ (to_string sidx') _ (to_string-digits sidx) (to_string-digits sidx')
        rest in
    (
      to_string_injective local local' locals,
      to_string_injective bidx bidx' blocks,
      to_string_injective sidx sidx' statements,
    )
