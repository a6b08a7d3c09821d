-- ===== src/Bits/Fields.antt =====
-- Bit vectors field by field: the masks, splices and repetitions that the terms stand for.
use rul_checker.Prelude.{
  ℕ, zero, suc, ◌≤◌, ◌<◌, ◌≡◌, refl, sym, ap, ◌∙◌, Bool, true, false, [], ◌∷◌, ◌++◌, length, set,
  take, drop, replicate, get_or, arith, length-set, length-replicate,
}
use rul_checker.Ownership.{RustBv}
use rul_checker.Bits.{rustbv_to_int}
use rul_checker.Bits.Words.{to_bits, to_bits-rustbv_to_int}
use rul_checker.Z3.{zip_and}

-- The bit vector that owns nothing.
abbrev pub nothing : ℕ → RustBv
nothing w = replicate w false

pub to_bits-zero : (w : ℕ) → to_bits w 0 ≡ nothing w
to_bits-zero zero = refl
to_bits-zero (suc w) = ap (◌∷◌ false) (to_bits-zero w)

zip_and-ones : (v : RustBv) → zip_and v (replicate (length v) true) ≡ v
zip_and-ones [] = refl
zip_and-ones (true ∷ v) = ap (◌∷◌ true) (zip_and-ones v)
zip_and-ones (false ∷ v) = ap (◌∷◌ false) (zip_and-ones v)

-- A vector under the mask of a field is the vector with the field cleared.
zip_and-mask :
    (v : RustBv) (i : ℕ)
    → i < length v
    → zip_and v (set (replicate (length v) true) i false) ≡ set v i false
zip_and-mask [] i h = refl
zip_and-mask (b ∷ v) zero h = ground (arith, zip_and-ones v)
zip_and-mask (b ∷ v) (suc i) h = ground (arith, zip_and-mask v i)

-- The mask of a field as a `u64`, up to 64 fields.
pub mask_bits :
    (v : RustBv) (i n : ℕ)
    → length v ≡ n
    → i < n
    → n ≤ 64
    → zip_and v (to_bits n (rustbv_to_int (set (replicate n true) i false))) ≡ set v i false
mask_bits v i n e h k =
    let size : length (set (replicate n true) i false) ≡ n =
      length-set (replicate n true) i false ∙ length-replicate n true in
    let back = to_bits-rustbv_to_int (set (replicate n true) i false) (omega arith) in
    ap (zip_and v)
      (ap (λ (w : ℕ). to_bits w (rustbv_to_int (set (replicate n true) i false))) (sym size) ∙ back)
    ∙ ap (λ (w : ℕ). zip_and v (set (replicate w true) i false)) (sym e)
    ∙ zip_and-mask v i (omega arith)

-- Bits below the field, the new bit, and the bits above.
pub splice_bits :
    (v : RustBv) (i : ℕ) (b : Bool) → i < length v → take i v ++ b ∷ drop (suc i) v ≡ set v i b
splice_bits [] i b h = absurd (omega arith)
splice_bits (c ∷ v) zero b h = refl
splice_bits (c ∷ v) (suc i) b h = ap (◌∷◌ c) (splice_bits v i b (omega arith))

pub take-length : (v : RustBv) (n : ℕ) → length v ≤ n → take n v ≡ v
take-length [] zero h = refl
take-length [] (suc n) h = refl
take-length (c ∷ v) zero h = absurd (omega arith)
take-length (c ∷ v) (suc n) h = ap (◌∷◌ c) (take-length v n (omega arith))

pub drop-length : (v : RustBv) (n : ℕ) → length v ≤ n → drop n v ≡ []
drop-length [] zero h = refl
drop-length [] (suc n) h = refl
drop-length (c ∷ v) zero h = absurd (omega arith)
drop-length (c ∷ v) (suc n) h = drop-length v n (omega arith)

-- One bit out of a vector.
pub bit_at : (v : RustBv) (i : ℕ) → i < length v → take 1 (drop i v) ≡ get_or v i false ∷ []
bit_at [] i h = absurd (omega arith)
bit_at (c ∷ v) zero h = refl
bit_at (c ∷ v) (suc i) h = bit_at v i (omega arith)
