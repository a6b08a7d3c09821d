-- ===== src/Tests/Fields.antt =====
-- Terms and assignments at a field of the sample's local _2.
use rul_checker.Prelude.{
  ℕ, ◌≡◌, refl, ◌↔◌, ◌⊎◌, true, false, [], ◌∷◌, none, set, get_or, replicate, arith,
}
use rul_checker.Run.{ret}
use rul_checker.Rustc.{PlaceTy}
use rul_checker.Ownership.{owned, OwnershipLayout}
use rul_checker.Bits.Fields.{nothing}
use rul_checker.Bits.Layouts.{IsSettled}
use rul_checker.Z3.Ast.{Term, const, Assignment, ast_laws, eval, term_width}
use rul_checker.Flow.{St}
use rul_checker.Flow.Terms.{clear_field, splice_field, repeat_field}
use rul_checker.Flow.Meaning.{Models, clear_field-bits, splice_field-bits, repeat_field-bits}
use rul_checker.Flow.Assign.{move_from_field_owning, copy_from_field_owning}
use rul_checker.Flow.Assign.FromField.{
  spread, move_from_field_owning-transfers, copy_from_field_owning-shares,
}
use rul_checker.Tests.Sample.{sample_cx, before, old_bv}

abbrev bit : Term
bit = const [] 1

clear_field-bits_example :
    (c : Term) × (clear_field sample_cx old_bv 1 2 before ≡ ret (c, before))
    × (term_width c ≡ 2)
    × ((m : Assignment) → eval m c ≡ set (eval m old_bv) 1 false)
clear_field-bits_example =
    clear_field-bits sample_cx ast_laws before old_bv 1 2 refl (omega arith) (omega arith)

splice_field-bits_example :
    (c : Term) × (splice_field sample_cx old_bv 0 2 bit before ≡ ret (c, before))
    × (term_width c ≡ 2)
    × ((m : Assignment) → eval m c ≡ set (eval m old_bv) 0 (get_or (eval m bit) 0 false))
splice_field-bits_example =
    splice_field-bits sample_cx ast_laws before old_bv 0 2 bit refl (omega arith) refl

abbrev all_set : Assignment
all_set n i = true

repeat_field-bits_example :
    eval all_set (repeat_field sample_cx old_bv 1 3)
    ≡ replicate 3 (get_or (eval all_set old_bv) 1 false)
repeat_field-bits_example =
    repeat_field-bits sample_cx ast_laws all_set old_bv 1 3 (omega arith) (omega arith)

abbrev box_ty : PlaceTy ℕ
box_ty = record { ty = 1; variant_index = none }

abbrev box_layout : OwnershipLayout
box_layout = owned ∷ []

box_settled : IsSettled box_layout
box_settled = (λ h. cc, tt)

abbrev new_r : Term
new_r = const [] 2

move_from_field_owning-transfers_example :
    (s' : St sample_cx) × (move_from_field_owning sample_cx bit new_r old_bv 1 2 0 2 box_ty
        box_layout before
      ≡ ret (tt, s'))
    × (s'.slice ≡ before.slice)
    × ((m : Assignment)
        → Models sample_cx ast_laws m s'.solver ↔ (
            Models sample_cx ast_laws m before.solver
            × (eval m bit ≡ spread box_layout (get_or (eval m old_bv) 0 false))
            × (eval m new_r ≡ set (eval m old_bv) 0 false)))
move_from_field_owning-transfers_example =
    move_from_field_owning-transfers sample_cx ast_laws before bit new_r old_bv 0 2 2 box_ty
      box_layout box_settled (omega arith) (omega arith) (omega arith) (omega arith) refl refl refl
      refl

copy_from_field_owning-shares_example :
    (s' : St sample_cx) × (copy_from_field_owning sample_cx bit new_r old_bv 1 2 0 2 box_ty
        box_layout before
      ≡ ret (tt, s'))
    × (s'.slice ≡ before.slice)
    × ((m : Assignment)
        → Models sample_cx ast_laws m s'.solver ↔ (
            Models sample_cx ast_laws m before.solver
            × ((eval m new_r ≡ eval m old_bv) × (eval m bit ≡ nothing 1)
                ⊎ (eval m bit ≡ spread box_layout (get_or (eval m old_bv) 0 false))
                  × (eval m new_r ≡ set (eval m old_bv) 0 false))))
copy_from_field_owning-shares_example =
    copy_from_field_owning-shares sample_cx ast_laws before bit new_r old_bv 0 2 2 box_ty box_layout
      box_settled (omega arith) (omega arith) (omega arith) (omega arith) refl refl refl refl
