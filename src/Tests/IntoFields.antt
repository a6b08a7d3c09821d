-- ===== src/Tests/IntoFields.antt =====
-- Assignments into a field of the sample's locals.
use rul_checker.Prelude.{ℕ, ◌≡◌, refl, ◌↔◌, ◌⊎◌, false, [], ◌∷◌, none, set, get_or, arith}
use rul_checker.Run.{Run, ret, panic, out_of_fuel}
use rul_checker.Rustc.Mir.{Place, field_elem, deref_elem}
use rul_checker.Ownership.{update_from_default_ownership_visitor}
use rul_checker.Bits.Fields.{nothing}
use rul_checker.TypeVisitor.{visit_all, new_ty}
use rul_checker.TypeVisitor.DefaultOwnership.{visit_ty}
use rul_checker.Layout.{extract_default_ty_layout, fields_layout}
use rul_checker.Projection.{extract_projection}
use rul_checker.Slice.{declared}
use rul_checker.Z3.{any_set}
use rul_checker.Z3.Ast.{Term, const, Assignment, ast_laws, eval}
use rul_checker.Flow.{St, handle_taint}
use rul_checker.Flow.Terms.{prepare_to_field, splice_field}
use rul_checker.Flow.Meaning.{Models}
use rul_checker.Flow.Fields.{
  move_to_field_owning, copy_to_field_owning, move_field_owning, copy_field_owning,
  handle_move_to_field, handle_move_field_to_field,
}
use rul_checker.Flow.Fields.IntoField.{move_to_field_owning-transfers, copy_to_field_owning-shares}
use rul_checker.Flow.Fields.Between.{move_field_owning-transfers, copy_field_owning-shares}
use rul_checker.Flow.Fields.Falls.{handle_move_field_to_field-panic}
use rul_checker.Tests.Sample.{sample_cx, before, old_bv}

abbrev new_l : Term
new_l = const (1 ∷ []) 2

abbrev new_r : Term
new_r = const (2 ∷ []) 2

abbrev old_l : Term
old_l = const (3 ∷ []) 2

move_to_field_owning-transfers_example :
    (s' : St sample_cx) × (move_to_field_owning sample_cx new_l new_r old_l old_bv 2 2 1 before
      ≡ ret (tt, s'))
    × (s'.slice ≡ before.slice)
    × ((m : Assignment)
        → Models sample_cx ast_laws m s'.solver ↔ (
            Models sample_cx ast_laws m before.solver
            × (eval m new_r ≡ nothing 2)
            × (eval m new_l ≡ set (eval m old_l) 1 (any_set (eval m old_bv)))))
move_to_field_owning-transfers_example =
    move_to_field_owning-transfers sample_cx ast_laws before new_l new_r old_l old_bv 2 2 1
      (omega arith) refl refl refl refl

copy_to_field_owning-shares_example :
    (s' : St sample_cx) × (copy_to_field_owning sample_cx new_l new_r old_l old_bv 2 2 1 before
      ≡ ret (tt, s'))
    × (s'.slice ≡ before.slice)
    × ((m : Assignment)
        → Models sample_cx ast_laws m s'.solver ↔ (
            Models sample_cx ast_laws m before.solver
            × ((eval m new_r ≡ eval m old_bv) × (eval m new_l ≡ set (eval m old_l) 1 false)
                ⊎ (eval m new_r ≡ nothing 2)
                  × (eval m new_l ≡ set (eval m old_l) 1 (any_set (eval m old_bv))))))
copy_to_field_owning-shares_example =
    copy_to_field_owning-shares sample_cx ast_laws before new_l new_r old_l old_bv 2 2 1
      (omega arith) refl refl refl refl (omega arith)

move_field_owning-transfers_example :
    (s' : St sample_cx) × (move_field_owning sample_cx new_l new_r old_l old_bv 2 2 1 0 before
      ≡ ret (tt, s'))
    × (s'.slice ≡ before.slice)
    × ((m : Assignment)
        → Models sample_cx ast_laws m s'.solver ↔ (
            Models sample_cx ast_laws m before.solver
            × (eval m new_r ≡ set (eval m old_bv) 0 false)
            × (eval m new_l ≡ set (eval m old_l) 1 (get_or (eval m old_bv) 0 false))))
move_field_owning-transfers_example =
    move_field_owning-transfers sample_cx ast_laws before new_l new_r old_l old_bv 2 2 1 0
      (omega arith) (omega arith) (omega arith) refl refl refl refl

copy_field_owning-shares_example :
    (s' : St sample_cx) × (copy_field_owning sample_cx new_l new_r old_l old_bv 2 2 1 0 before
      ≡ ret (tt, s'))
    × (s'.slice ≡ before.slice)
    × ((m : Assignment)
        → Models sample_cx ast_laws m s'.solver ↔ (
            Models sample_cx ast_laws m before.solver
            × ((eval m new_r ≡ set (eval m old_bv) 0 false)
                  × (eval m new_l ≡ set (eval m old_l) 1 (get_or (eval m old_bv) 0 false))
                ⊎ (eval m new_l ≡ set (eval m old_l) 1 false) × (eval m new_r ≡ eval m old_bv))))
copy_field_owning-shares_example =
    copy_field_owning-shares sample_cx ast_laws before new_l new_r old_l old_bv 2 2 1 0
      (omega arith) (omega arith) (omega arith) refl refl refl refl (omega arith)

-- _3.0 = move *_2
abbrev left : Place ℕ
left = record { local = 3; projection = field_elem 0 1 ∷ [] }

abbrev right : Place ℕ
right = record { local = 2; projection = deref_elem ∷ [] }

abbrev state_of : Run (Unit {0} × St sample_cx) → St sample_cx
state_of (ret r) = r.1
state_of panic = before
state_of out_of_fuel = before

abbrev delegated : St sample_cx
unfolding handle_move_to_field extract_projection extract_default_ty_layout fields_layout visit_ty
    visit_all update_from_default_ownership_visitor prepare_to_field splice_field new_ty
    handle_taint
delegated = state_of (handle_move_to_field sample_cx left right none 4 1 before)

delegate_returns : handle_move_to_field sample_cx left right none 4 1 before ≡ ret (tt, delegated)
unfolding handle_move_to_field extract_projection extract_default_ty_layout fields_layout visit_ty
    visit_all update_from_default_ownership_visitor prepare_to_field splice_field new_ty
    handle_taint
delegate_returns = refl

right_supported : (extract_projection right).unsupport ≡ false
unfolding extract_projection
right_supported = refl

left_supported : (extract_projection left).unsupport ≡ false
unfolding extract_projection
left_supported = refl

right_fields : (extract_projection right).pf_vec ≡ []
unfolding extract_projection
right_fields = refl

left_fields : (extract_projection left).pf_vec ≡ (0, 1) ∷ []
unfolding extract_projection
left_fields = refl

handle_move_field_to_field-panic_example :
    handle_move_field_to_field sample_cx left right none 4 1 before ≡ panic
handle_move_field_to_field-panic_example =
    handle_move_field_to_field-panic sample_cx before delegated left right none 4 1 declared old_bv
      3 refl refl refl refl right_supported left_supported right_fields
      (ground (arith, left_fields)) delegate_returns
