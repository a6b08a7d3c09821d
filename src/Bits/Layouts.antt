-- ===== src/Bits/Layouts.antt =====
-- A layout and its two bit vectors.
use rul_checker.Prelude.{suc, ◌≡◌, refl, ap, ◌≢◌, true, false, not, [], ◌∷◌, map, length, All}
use rul_checker.Prelude.{ℕ, ◌≤◌, sym, ◌∙◌, arith}
use rul_checker.Ownership.{owned, unowned, uninit, is_owned, OwnershipLayout}
use rul_checker.Bits.Words.{to_bits, to_bits-rustbv_to_int}
use rul_checker.Bits.{rustbv_to_int, ownership_layout_to_rustbv, reverse_ownership_layout_to_rustbv}

abbrev pub IsSettled : OwnershipLayout → Type 0
IsSettled = All (λ o. o ≢ uninit)

pub ownership_layout_to_rustbv-map :
    (l : OwnershipLayout) → IsSettled l → ownership_layout_to_rustbv l ≡ map is_owned l
unfolding ownership_layout_to_rustbv
ownership_layout_to_rustbv-map [] h = refl
ownership_layout_to_rustbv-map (owned ∷ l) h = ap (◌∷◌ true) (ownership_layout_to_rustbv-map l h.1)
ownership_layout_to_rustbv-map (unowned ∷ l) h =
    ap (◌∷◌ false) (ownership_layout_to_rustbv-map l h.1)
ownership_layout_to_rustbv-map (uninit ∷ l) h = absurd (h.0 refl)

pub reverse_ownership_layout_to_rustbv-map :
    (l : OwnershipLayout)
    → reverse_ownership_layout_to_rustbv l ≡ map not (ownership_layout_to_rustbv l)
unfolding ownership_layout_to_rustbv reverse_ownership_layout_to_rustbv
reverse_ownership_layout_to_rustbv-map [] = refl
reverse_ownership_layout_to_rustbv-map (owned ∷ l) =
    ap (◌∷◌ false) (reverse_ownership_layout_to_rustbv-map l)
reverse_ownership_layout_to_rustbv-map (unowned ∷ l) =
    ap (◌∷◌ true) (reverse_ownership_layout_to_rustbv-map l)
reverse_ownership_layout_to_rustbv-map (uninit ∷ l) = reverse_ownership_layout_to_rustbv-map l

pub length-ownership_layout_to_rustbv :
    (l : OwnershipLayout) → IsSettled l → length (ownership_layout_to_rustbv l) ≡ length l
unfolding ownership_layout_to_rustbv
length-ownership_layout_to_rustbv [] h = refl
length-ownership_layout_to_rustbv (owned ∷ l) h = ap suc (length-ownership_layout_to_rustbv l h.1)
length-ownership_layout_to_rustbv (unowned ∷ l) h = ap suc (length-ownership_layout_to_rustbv l h.1)
length-ownership_layout_to_rustbv (uninit ∷ l) h = absurd (h.0 refl)

-- The bits of a layout, by way of its `u64`.
pub to_bits-layout :
    (l : OwnershipLayout)
    → IsSettled l
    → length l ≤ 64
    → to_bits (length l) (rustbv_to_int (ownership_layout_to_rustbv l)) ≡ map is_owned l
to_bits-layout l h k =
    let size = length-ownership_layout_to_rustbv l h in
    ap (λ (n : ℕ). to_bits n (rustbv_to_int (ownership_layout_to_rustbv l))) (sym size)
    ∙ to_bits-rustbv_to_int (ownership_layout_to_rustbv l) (omega (arith, size))
    ∙ ownership_layout_to_rustbv-map l h
