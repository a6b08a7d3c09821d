-- ===== src/Flow/Drop/Freed.antt =====
-- What the drop of a whole local asserts.
use rul_checker.Prelude.{
  ℕ, suc, ◌≤◌, ◌≡◌, refl, sym, ap, ◌∙◌, ◌↔◌, Bool, true, false, not, [], ◌∷◌, some, map, get_elem?,
  set, length, arith, if◌then◌else◌, length-map, get_elem?-set-some, ◌++◌,
}
use rul_checker.Run.{ret}
use rul_checker.Ownership.{OwnershipLayout, RustBv, is_owned, owned, unowned, uninit}
use rul_checker.Bits.{reverse_ownership_layout_to_rustbv, rustbv_to_int}
use rul_checker.Bits.Words.{to_bits, to_bits-rustbv_to_int}
use rul_checker.Bits.Layouts.{IsSettled}
use rul_checker.Bits.Fields.{nothing, to_bits-zero}
use rul_checker.Z3.{Laws, zip_and}
use rul_checker.Projection.{extract_projection}
use rul_checker.Slice.{init}
use rul_checker.Flow.{Cx, St, codes, new_local_name}
use rul_checker.Flow.Meaning.{Models, equated}
use rul_checker.Flow.Drop.{handle_drop}

-- The fields that the layout does not own.
abbrev pub unowned_mask : OwnershipLayout → RustBv
unowned_mask l = map (λ o. not (is_owned o)) l

pub reverse-mask :
    (l : OwnershipLayout) → IsSettled l → reverse_ownership_layout_to_rustbv l ≡ unowned_mask l
unfolding reverse_ownership_layout_to_rustbv
reverse-mask [] h = refl
reverse-mask (owned ∷ l) h = ap (◌∷◌ false) (reverse-mask l h.1)
reverse-mask (unowned ∷ l) h = ap (◌∷◌ true) (reverse-mask l h.1)
reverse-mask (uninit ∷ l) h = absurd (h.0 refl)

mask_back :
    (l : OwnershipLayout) (n : ℕ)
    → IsSettled l
    → length l ≡ n
    → n ≤ 64
    → to_bits n (rustbv_to_int (reverse_ownership_layout_to_rustbv l)) ≡ unowned_mask l
mask_back l n h e k =
    let size : length (unowned_mask l) ≡ n = length-map l (λ o. not (is_owned o)) ∙ e in
    ap (λ b. to_bits n (rustbv_to_int b)) (reverse-mask l h)
    ∙ ap (λ (w : ℕ). to_bits w (rustbv_to_int (unowned_mask l))) (sym size)
    ∙ to_bits-rustbv_to_int (unowned_mask l) (omega arith)

module _ (cx : Cx) (L : Laws cx.z3) (s : St cx) (u bidx n : ℕ) (x : cx.z3.BV) (l : OwnershipLayout)
    (recovery : Bool) (var_at : get_elem? s.slice.var u ≡ some (init x))
    (len_at : get_elem? s.slice.len u ≡ some (suc n))
    (layout_at : get_elem? s.slice.layout u ≡ some l) (sized : L.width x ≡ suc n)
    (settled : IsSettled l) (fits : length l ≡ suc n) (small : suc n ≤ 64) where
  open cx use {z3, z3.{BV, new_const, bvand, from_u64}}
  open L use {Model, width, bits}

  -- The bit vector of the local after the drop.
  abbrev pub dropped : BV
  dropped =
      new_const
        (new_local_name u bidx 0
          ++ (if recovery then codes "_drop_recovery" else codes "_drop_all"))
        (suc n)

  kept : ℕ
  kept = if recovery then 0 else rustbv_to_int (reverse_ownership_layout_to_rustbv l)

  -- What a drop keeps: after a recovery nothing, else the fields that the layout does not own.
  abbrev pub kept_bits : RustBv
  kept_bits = if recovery then nothing (suc n) else unowned_mask l

  kept-bits : to_bits (suc n) kept ≡ kept_bits
  unfolding kept
  kept-bits = ground (arith, to_bits-zero (suc n), mask_back l (suc n) settled fits small)

  -- The drop of a whole local that is initialised at the width of its length, with a settled
  -- layout of that length, 1 to 64, returns and rebinds the local; its models are those of before
  -- in which the new value owns what the old one did in the fields that the drop keeps.
  pub handle_drop-frees :
      (s' : St cx) × (handle_drop cx (record { local = u; projection = [] }) bidx recovery s
        ≡ ret (tt, s'))
      × (get_elem? s'.slice.var u ≡ some (init dropped))
      × ((m : Model)
          → Models cx L m s'.solver
            ↔ (Models cx L m s.solver × (bits m dropped ≡ zip_and (bits m x) kept_bits)))
  unfolding handle_drop extract_projection kept
  handle_drop-frees =
      let masked = bvand x (from_u64 kept (suc n)) in
      let same = sized ∙ sym (L.width-from_u64 kept (suc n)) in
      let (f, e, mean) = equated cx L dropped masked (
        L.width-new_const _ (suc n)
        ∙ sym sized
        ∙ sym (L.width-bvand x (from_u64 kept (suc n)) same)) in
      let masked_bits = λ (m : Model).
        L.bits-bvand m x (from_u64 kept (suc n)) same
        ∙ ap (zip_and (bits m x)) (L.bits-from_u64 m kept (suc n) ∙ kept-bits) in
      (
        record s {
          slice = record s.slice { var = set s.slice.var u (init dropped) };
          goal = f ∷ s.goal;
          solver = f ∷ s.solver;
        },
        ground arith,
        get_elem?-set-some s.slice.var u (init dropped) var_at,
        λ m. (
          λ h. (h.1, (mean m).0 h.0 ∙ masked_bits m),
          λ h. ((mean m).1 (h.1 ∙ sym (masked_bits m)), h.0),
        ),
      )
