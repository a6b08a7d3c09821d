-- ===== src/Bits/Words.antt =====
-- The integer of a bit vector, and its bits again.
use native.Mathlib.Nat.{
  mod-eq_of_lt, add-mul-mod_self_left, div-add-mod, mod-add-mod, pow-suc, pow-le-pow_right,
}
use rul_checker.Prelude.{
  ℕ, zero, suc, ◌+◌, ◌*◌, ◌/◌, ◌%◌, ◌^◌, ◌≤◌, ◌<◌, ◌≡◌, refl, sym, ap, ◌∙◌, true, false, [], ◌∷◌,
  length, ◌==◌, arith,
}
use rul_checker.Ownership.{RustBv}
use rul_checker.Bits.{as_u64, u64_mod, rustbv_to_int_loop, rustbv_to_int}

-- The number that a bit vector stands for, least significant bit first.
abbrev pub value : RustBv → ℕ
value [] = 0
value (b ∷ bv) = as_u64 b + 2 * value bv

-- The bits of a number, least significant first: what z3 makes of a `u64` at a width.
abbrev pub to_bits : ℕ → ℕ → RustBv
to_bits zero n = []
to_bits (suc w) n = (n % 2 == 1) ∷ to_bits w (n / 2)

-- A round multiplies modulo 2 ^ 64, which the sum forgets.
wrap_mul : (m a b v : ℕ) → (a + b % m * v) % m ≡ (a + b * v) % m
wrap_mul m a b v =
    sym (add-mul-mod_self_left (a + b % m * v) m (b / m * v))
    ∙ ap (λ (t : ℕ). t % m) (omega (arith, ap (λ (t : ℕ). t * v) (div-add-mod b m)))

rustbv_to_int_loop-value :
    (bv : RustBv) (ans base : ℕ)
    → ans < u64_mod
    → rustbv_to_int_loop ans base bv ≡ (ans + base * value bv) % u64_mod
unfolding rustbv_to_int_loop
rustbv_to_int_loop-value [] ans base h = omega arith
rustbv_to_int_loop-value (tf ∷ bv) ans base h =
    rustbv_to_int_loop-value bv ((ans + base * as_u64 tf) % u64_mod) (base * 2 % u64_mod)
      (omega arith)
    ∙ wrap_mul u64_mod ((ans + base * as_u64 tf) % u64_mod) (base * 2) (value bv)
    ∙ mod-add-mod (ans + base * as_u64 tf) u64_mod (base * 2 * value bv)
    ∙ ap (λ (t : ℕ). t % u64_mod) (omega arith)

-- `rustbv_to_int` is the value modulo 2 ^ 64.
pub rustbv_to_int-value : (bv : RustBv) → rustbv_to_int bv ≡ value bv % u64_mod
unfolding rustbv_to_int
rustbv_to_int-value bv =
    rustbv_to_int_loop-value bv 0 1 (omega arith) ∙ ap (λ (t : ℕ). t % u64_mod) (omega arith)

pub value-lt : (bv : RustBv) → value bv < 2 ^ length bv
value-lt [] = omega arith
value-lt (b ∷ bv) = rw pow-suc (ground (arith, value-lt bv))

pub to_bits-value : (bv : RustBv) → to_bits (length bv) (value bv) ≡ bv
to_bits-value [] = refl
to_bits-value (true ∷ bv) =
    let half : (1 + 2 * value bv) / 2 ≡ value bv = omega arith in
    ground (arith, to_bits-value bv, ap (to_bits (length bv)) half)
to_bits-value (false ∷ bv) =
    let half : (0 + 2 * value bv) / 2 ≡ value bv = omega arith in
    ground (arith, to_bits-value bv, ap (to_bits (length bv)) half)

pub length-to_bits : (w n : ℕ) → length (to_bits w n) ≡ w
length-to_bits zero n = refl
length-to_bits (suc w) n = ap suc (length-to_bits w (n / 2))

-- Up to 64 bits the `u64` keeps the vector: z3 reads back, at the vector's length, the very bits.
pub to_bits-rustbv_to_int :
    (bv : RustBv) → length bv ≤ 64 → to_bits (length bv) (rustbv_to_int bv) ≡ bv
to_bits-rustbv_to_int bv h =
    ap (to_bits (length bv)) (rustbv_to_int-value bv ∙ mod-eq_of_lt small) ∙ to_bits-value bv
  where
    small : value bv < u64_mod
    small = omega (arith, value-lt bv, pow-le-pow_right {n = 2} (omega arith) h)
