-- ===== src/Z3/Ast.antt =====
-- Terms with an evaluator: a concrete value of the z3 interface and its laws.
use rul_checker.Prelude.{
  ℕ, zero, suc, ◌+◌, ◌-◌, ◌≤◌, ◌<◌, ◌≡◌, refl, sym, ap, subst, ◌∙◌, ◌↔◌, ◌⊎◌, inl, inr, Bool, true,
  false, [], ◌∷◌, ◌++◌, Option, none, some, take, drop, replicate, length, arith, ◌==◌,
  if◌then◌else◌, Bool-cases, length-append, length-take, length-drop, length-replicate,
}
use rul_checker.Ownership.{RustBv}
use rul_checker.Bits.Words.{to_bits, length-to_bits}
use rul_checker.Z3.{Z3, Laws, Name, zip_and, any_set, sign_bit}

pub data Term : Type 0 where
  const : Name → ℕ → Term
  numeral : ℕ → ℕ → Term
  conj : Term → Term → Term
  redor : Term → Term
  slice : Term → ℕ → ℕ → Term
  extend : Term → ℕ → Term
  cat : Term → Term → Term

pub data Claim : Type 0 where
  equal : Term → Term → Claim
  both either : Claim → Claim → Claim
  flag : Name → Claim

-- The given number of bits: cut, or filled with zeros.
abbrev pub resize : ℕ → RustBv → RustBv
resize zero v = []
resize (suc w) [] = false ∷ resize w []
resize (suc w) (b ∷ v) = b ∷ resize w v

length-resize : (w : ℕ) (v : RustBv) → length (resize w v) ≡ w
length-resize zero v = refl
length-resize (suc w) [] = ap suc (length-resize w [])
length-resize (suc w) (b ∷ v) = ap suc (length-resize w v)

resize_self : (w : ℕ) (v : RustBv) → length v ≡ w → resize w v ≡ v
resize_self zero [] h = refl
resize_self zero (b ∷ v) h = absurd (omega arith)
resize_self (suc w) [] h = absurd (omega arith)
resize_self (suc w) (b ∷ v) h = ap (◌∷◌ b) (resize_self w v (omega arith))

-- The bits of a constant in a model.
abbrev pub tabulate : ℕ → ℕ → (ℕ → Bool) → RustBv
tabulate zero i f = []
tabulate (suc w) i f = f i ∷ tabulate w (suc i) f

length-tabulate : (w i : ℕ) (f : ℕ → Bool) → length (tabulate w i f) ≡ w
length-tabulate zero i f = refl
length-tabulate (suc w) i f = ap suc (length-tabulate w (suc i) f)

abbrev pub term_width : Term → ℕ
term_width (const n w) = w
term_width (numeral u w) = w
term_width (conj a b) = term_width a
term_width (redor a) = 1
term_width (slice a high low) = suc high - low
term_width (extend a n) = term_width a + n
term_width (cat a b) = term_width b + term_width a

abbrev pub Assignment : Type 0
Assignment = Name → ℕ → Bool

abbrev pub eval : Assignment → Term → RustBv
eval m (const n w) = tabulate w 0 (m n)
eval m (numeral u w) = to_bits w u
eval m (conj a b) = zip_and (eval m a) (resize (term_width a) (eval m b))
eval m (redor a) = any_set (eval m a) ∷ []
eval m (slice a high low) = resize (suc high - low) (take (suc high - low) (drop low (eval m a)))
eval m (extend a n) = eval m a ++ replicate n (sign_bit (eval m a))
eval m (cat a b) = eval m b ++ eval m a

abbrev pub Satisfies : Assignment → Claim → Type 0
Satisfies m (equal a b) = eval m a ≡ eval m b
Satisfies m (both f g) = Satisfies m f × Satisfies m g
Satisfies m (either f g) = Satisfies m f ⊎ Satisfies m g
Satisfies m (flag n) = m n 0 ≡ true

length-zip_and : (a b : RustBv) → length a ≡ length b → length (zip_and a b) ≡ length a
length-zip_and [] b h = refl
length-zip_and (x ∷ a) [] h = absurd (omega arith)
length-zip_and (x ∷ a) (y ∷ b) h = ap suc (length-zip_and a b (omega arith))

pub length-eval : (m : Assignment) (t : Term) → length (eval m t) ≡ term_width t
length-eval m (const n w) = length-tabulate w 0 (m n)
length-eval m (numeral u w) = length-to_bits w u
length-eval m (conj a b) =
    length-zip_and (eval m a) (resize (term_width a) (eval m b))
      (length-eval m a ∙ sym (length-resize (term_width a) (eval m b)))
    ∙ length-eval m a
length-eval m (redor a) = refl
length-eval m (slice a high low) = length-resize (suc high - low) _
length-eval m (extend a n) =
    length-append (eval m a) (replicate n (sign_bit (eval m a)))
    ∙ omega (arith, length-eval m a, length-replicate n (sign_bit (eval m a)))
length-eval m (cat a b) =
    length-append (eval m b) (eval m a) ∙ omega (arith, length-eval m a, length-eval m b)

abbrev pub equate : Term → Term → Option Claim
equate a b = if term_width a == term_width b then some (equal a b) else none

abbrev pub ast : Z3
ast = record {
  BV = Term;
  Formula = Claim;
  new_const = const;
  from_u64 = numeral;
  bvand = conj;
  bvredor = redor;
  extract = slice;
  sign_ext = extend;
  concat = cat;
  safe_eq = equate;
  bool_and = both;
  bool_or = either;
  bool_const = flag;
}

pub equate_means :
    (m : Assignment) (a b : Term) {f : Claim}
    → equate a b ≡ some f
    → Satisfies m f ↔ (eval m a ≡ eval m b)
equate_means m a b {f} h = elim (Bool-cases (term_width a == term_width b)) [
  | inl same ↦
      let e : equal a b ≡ f = ground arith in
      subst (λ g. Satisfies m g ↔ (eval m a ≡ eval m b)) e (λ p. p, λ p. p)
  | inr differ ↦ absurd (ground arith)
]

pub equate-some : (a b : Term) → term_width a ≡ term_width b → equate a b ≡ some (equal a b)
equate-some a b h = ground arith

pub slice_bits :
    (m : Assignment) (a : Term) (high low : ℕ)
    → low ≤ high
    → high < term_width a
    → eval m (slice a high low) ≡ take (suc high - low) (drop low (eval m a))
slice_bits m a high low h k =
    resize_self (suc high - low) (take (suc high - low) (drop low (eval m a))) (
      omega (
        arith,
        length-take (suc high - low) (drop low (eval m a)),
        length-drop low (eval m a),
        length-eval m a,
      ))

pub conj_bits :
    (m : Assignment) (a b : Term)
    → term_width a ≡ term_width b
    → eval m (conj a b) ≡ zip_and (eval m a) (eval m b)
conj_bits m a b h =
    ap (zip_and (eval m a)) (resize_self (term_width a) (eval m b) (length-eval m b ∙ sym h))

abbrev pub ast_laws : Laws ast
ast_laws = record {
  Model = Assignment;
  width = term_width;
  bits = eval;
  Sat = Satisfies;
  width-new_const = λ n w. refl;
  width-from_u64 = λ u w. refl;
  width-bvand = λ a b h. refl;
  width-bvredor = λ a. refl;
  width-extract = λ a high low h k. refl;
  width-sign_ext = λ a n. refl;
  width-concat = λ a b. refl;
  bits-from_u64 = λ m u w. refl;
  bits-bvand = conj_bits;
  bits-bvredor = λ m a. refl;
  bits-extract = slice_bits;
  bits-sign_ext = λ m a n. refl;
  bits-concat = λ m a b. refl;
  length-bits = length-eval;
  safe_eq-some = λ a b h. (equal a b, equate-some a b h);
  Sat-safe_eq = λ m a b. equate_means m a b;
  Sat-bool_and = λ m f g. (λ p. p, λ p. p);
  Sat-bool_or = λ m f g. (λ p. p, λ p. p);
}
