-- ===== src/Z3.antt =====
-- The part of the `z3` crate that the flow analysis calls: no code of this repository, so a record
-- of parameters, with the documented meaning of its terms as a record of laws.
pub mod Ast
use rul_checker.Prelude.{
  ℕ, suc, ◌+◌, ◌-◌, ◌≤◌, ◌<◌, ◌≡◌, ◌↔◌, ◌⊎◌, Bool, true, false, ◌&&◌, ◌||◌, List, [], ◌∷◌, ◌++◌,
  Option, some, take, drop, replicate, length,
}
use rul_checker.Ownership.{RustBv}
use rul_checker.Bits.Words.{to_bits}

-- A name of a z3 constant: the bytes of a Rust string.
abbrev pub Name : Type 0
Name = List ℕ

pub record Z3 : Type 1 where
  pub BV : Type 0
  pub Formula : Type 0
  -- `BV::new_const(ctx, name, sz)`, `BV::from_u64(ctx, u, sz)` and the methods of a `BV`
  pub new_const : Name → ℕ → BV
  pub from_u64 : ℕ → ℕ → BV
  pub bvand : BV → BV → BV
  pub bvredor : BV → BV
  -- `bv.extract(high, low)`
  pub extract : BV → ℕ → ℕ → BV
  pub sign_ext : BV → ℕ → BV
  -- `high.concat(&low)`
  pub concat : BV → BV → BV
  -- `a._safe_eq(&b)`: `none` stands for the error that the two sorts differ
  pub safe_eq : BV → BV → Option Formula
  -- `Bool::and(ctx, &[a, b])`, `Bool::or(ctx, &[a, b])` and `Bool::new_const(ctx, name)`
  pub bool_and : Formula → Formula → Formula
  pub bool_or : Formula → Formula → Formula
  pub bool_const : Name → Formula

-- Bitwise and, at one length.
abbrev pub zip_and : RustBv → RustBv → RustBv
zip_and [] b = []
zip_and (x ∷ a) [] = []
zip_and (x ∷ a) (y ∷ b) = (x && y) ∷ zip_and a b

-- Whether some bit is set.
abbrev pub any_set : RustBv → Bool
any_set [] = false
any_set (x ∷ a) = x || any_set a

-- The most significant bit, the last one.
abbrev pub sign_bit : RustBv → Bool
sign_bit [] = false
sign_bit (x ∷ []) = x
sign_bit (x ∷ y ∷ a) = sign_bit (y ∷ a)

-- A model gives each bit vector its bits, least significant first, and says which formulas hold.
pub record Laws (z : Z3) : Type 1 where
  pub Model : Type 0
  pub width : z.BV → ℕ
  pub bits : Model → z.BV → RustBv
  pub Sat : Model → z.Formula → Type 0
  pub width-new_const : (n : Name) (w : ℕ) → width (z.new_const n w) ≡ w
  pub width-from_u64 : (u w : ℕ) → width (z.from_u64 u w) ≡ w
  pub width-bvand : (a b : z.BV) → width a ≡ width b → width (z.bvand a b) ≡ width a
  pub width-bvredor : (a : z.BV) → width (z.bvredor a) ≡ 1
  pub width-extract :
      (a : z.BV) (high low : ℕ)
      → low ≤ high
      → high < width a
      → width (z.extract a high low) ≡ suc high - low
  pub width-sign_ext : (a : z.BV) (n : ℕ) → width (z.sign_ext a n) ≡ width a + n
  pub width-concat : (a b : z.BV) → width (z.concat a b) ≡ width b + width a
  pub bits-from_u64 : (m : Model) (u w : ℕ) → bits m (z.from_u64 u w) ≡ to_bits w u
  pub bits-bvand :
      (m : Model) (a b : z.BV)
      → width a ≡ width b
      → bits m (z.bvand a b) ≡ zip_and (bits m a) (bits m b)
  pub bits-bvredor : (m : Model) (a : z.BV) → bits m (z.bvredor a) ≡ any_set (bits m a) ∷ []
  pub bits-extract :
      (m : Model) (a : z.BV) (high low : ℕ)
      → low ≤ high
      → high < width a
      → bits m (z.extract a high low) ≡ take (suc high - low) (drop low (bits m a))
  pub bits-sign_ext :
      (m : Model) (a : z.BV) (n : ℕ)
      → bits m (z.sign_ext a n) ≡ bits m a ++ replicate n (sign_bit (bits m a))
  pub bits-concat : (m : Model) (a b : z.BV) → bits m (z.concat a b) ≡ bits m b ++ bits m a
  pub length-bits : (m : Model) (a : z.BV) → length (bits m a) ≡ width a
  pub safe_eq-some : (a b : z.BV) → width a ≡ width b → (f : z.Formula) × (z.safe_eq a b ≡ some f)
  pub Sat-safe_eq :
      (m : Model) (a b : z.BV) {f : z.Formula}
      → z.safe_eq a b ≡ some f
      → Sat m f ↔ (bits m a ≡ bits m b)
  pub Sat-bool_and : (m : Model) (f g : z.Formula) → Sat m (z.bool_and f g) ↔ (Sat m f × Sat m g)
  pub Sat-bool_or : (m : Model) (f g : z.Formula) → Sat m (z.bool_or f g) ↔ (Sat m f ⊎ Sat m g)
