-- ===== src/Tests/Names.antt =====
-- Names at a concrete point.
use rul_checker.Prelude.{ℕ, ◌≡◌, refl}
use rul_checker.Flow.{new_local_name, to_string, codes}
use rul_checker.Flow.Names.{new_local_name_injective}

name_computes : new_local_name 12 3 0 ≡ codes "3_0_12"
unfolding new_local_name to_string
name_computes = refl

abbrev twelve : ℕ
twelve = 12

abbrev three : ℕ
three = 3

new_local_name_injective_example : (twelve ≡ 12) × (three ≡ 3) × (three ≡ 3)
new_local_name_injective_example = new_local_name_injective 12 3 3 12 3 3 refl
