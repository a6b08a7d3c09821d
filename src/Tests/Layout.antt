-- ===== src/Tests/Layout.antt =====
-- Layouts of the sample's types.
use rul_checker.Prelude.{
  ℕ, zero, suc, ◌+◌, ◌≡◌, ◌==◌, ◌||◌, if◌then◌else◌, refl, true, false, [], ◌∷◌, none, length,
  arith,
}
use rul_checker.Run.{ret, Ends}
use rul_checker.Ownership.{
  owned, unowned, OwnershipLayoutResult, RustBv, update_from_default_ownership_visitor,
}
use rul_checker.Bits.{ownership_layout_to_rustbv, rustbv_merge}
use rul_checker.TypeVisitor.{visit_all}
use rul_checker.TypeVisitor.DefaultOwnership.{visit_ty}
use rul_checker.TypeVisitor.DefaultOwnership.Ends.{IsRanked}
use rul_checker.Layout.{extract_default_ty_layout, generate_ptr_layout, fields_layout}
use rul_checker.Layout.Owned.{IsSound, extract_default_ty_layout-IsSound}
use rul_checker.Layout.Lengths.{rustbv_merge-ret}
use rul_checker.Layout.Ends.{extract_default_ty_layout-Enough}
use rul_checker.Tests.Sample.{sample_tcx, sample_owner}

-- (Box, i32) owns its first field.
abbrev pub pair_layout : OwnershipLayoutResult
pair_layout = record {
  layout = owned ∷ unowned ∷ [];
  param = false;
  requirement = true;
  owned_flag = true;
}

pub pair_computes : extract_default_ty_layout sample_tcx sample_owner 5 3 none ≡ ret pair_layout
unfolding extract_default_ty_layout fields_layout visit_ty visit_all
    update_from_default_ownership_visitor
pair_computes = refl

extract_default_ty_layout-IsSound_example : IsSound sample_tcx sample_owner pair_layout
extract_default_ty_layout-IsSound_example =
    extract_default_ty_layout-IsSound sample_tcx sample_owner 5 3 none pair_computes

rustbv_merge-ret_example :
    (p q : RustBv) × (generate_ptr_layout sample_tcx 3 none ≡ ret p)
    × (rustbv_merge (ownership_layout_to_rustbv (owned ∷ unowned ∷ [])) p ≡ ret q)
    × (length q ≡ 2)
rustbv_merge-ret_example = rustbv_merge-ret sample_tcx sample_owner 5 3 none pair_computes

abbrev rank : ℕ → ℕ
rank t = if t == 3 || t == 7 then 1 else 0

ranked : IsRanked sample_tcx sample_owner rank
ranked zero = (tt, tt)
ranked (suc zero) = (tt, tt)
ranked (suc (suc zero)) = (tt, tt)
ranked (suc (suc (suc zero))) = ((omega arith, (omega arith, tt)), tt)
ranked (suc (suc (suc (suc zero)))) = (tt, tt)
ranked (suc (suc (suc (suc (suc zero))))) = (tt, tt)
ranked (suc (suc (suc (suc (suc (suc zero)))))) = (tt, tt)
ranked (suc (suc (suc (suc (suc (suc (suc zero))))))) = (tt, (omega arith, tt))
ranked (suc (suc (suc (suc (suc (suc (suc (suc zero)))))))) = (tt, tt)
ranked (suc (suc (suc (suc (suc (suc (suc (suc (suc zero))))))))) = (tt, tt)
ranked (suc (suc (suc (suc (suc (suc (suc (suc (suc (suc n)))))))))) = (tt, tt)

extract_default_ty_layout-Enough_example :
    (least : ℕ) × ((extra : ℕ)
      → Ends (extract_default_ty_layout sample_tcx sample_owner (least + extra) 7 none))
extract_default_ty_layout-Enough_example =
    extract_default_ty_layout-Enough sample_tcx sample_owner rank ranked 7 none
