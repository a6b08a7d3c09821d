-- ===== src/Tests/Bits.antt =====
-- Bit vectors at concrete layouts.
use rul_checker.Prelude.{◌≡◌, refl, true, false, [], ◌∷◌, arith}
use rul_checker.Ownership.{RustBv}
use rul_checker.Bits.{rustbv_to_int}
use rul_checker.Bits.Words.{to_bits, to_bits-rustbv_to_int}

abbrev three : RustBv
three = true ∷ false ∷ true ∷ []

to_bits-rustbv_to_int_example : to_bits 3 (rustbv_to_int three) ≡ three
to_bits-rustbv_to_int_example = to_bits-rustbv_to_int three (omega arith)

-- The least significant bit comes first.
three_is : rustbv_to_int three ≡ 5
unfolding rustbv_to_int
three_is = refl
