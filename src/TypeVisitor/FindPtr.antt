-- ===== src/TypeVisitor/FindPtr.antt =====
-- The visitor `FindPtr` of src/analysis/type_analysis/type_visitor.rs: whether a pointer or a
-- reference lies in a type. Each nesting of visits takes one unit of fuel.
pub mod Total
use rul_checker.Prelude.{ℕ, zero, suc, Bool, true, false, List, [], ◌∷◌, if◌then◌else◌}
use rul_checker.Run.{Run, ret, out_of_fuel, ◌>>=◌}
use rul_checker.Rustc.{Tcx, TyKind, tuple, adt, raw_ptr, ref, DefId, is_struct}
use rul_checker.TypeVisitor.{
  ControlFlow, continue, break, Visit, visit_all, visit_each, contains, remove, all_field_tys,
}

pub record FindPtr : Type 0 where
  pub unique : List DefId
  pub ptr : Bool

abbrev pub new_find_ptr : FindPtr
new_find_ptr = record { unique = []; ptr = false }

module _ (tcx : Tcx) where
  open tcx use {Ty, kind, super_tys}

  pub visit_ptr_kind : Visit Ty FindPtr → Ty → TyKind Ty → FindPtr → Run (ControlFlow × FindPtr)
  visit_ptr_kind v ty (adt d substs) s =
      if is_struct d.adt_kind
      then (if contains s.unique d.did
          then ret (continue, s)
          else (visit_each v (all_field_tys tcx d substs) (record s { unique = d.did ∷ s.unique })
              >>= λ s'. ret (continue, record s' { unique = remove s'.unique d.did })))
      else ret (continue, s)
  visit_ptr_kind v ty (tuple ts) s = visit_all v (super_tys ty) s
  visit_ptr_kind v ty (raw_ptr t mutbl) s = ret (break, record s { ptr = true })
  visit_ptr_kind v ty (ref region t mutbl) s = ret (break, record s { ptr = true })
  visit_ptr_kind v ty k s = ret (continue, s)

  unfoldable pub visit_ptr : ℕ → Visit Ty FindPtr
  unfolding visit_ptr_kind
  visit_ptr zero ty s = out_of_fuel
  visit_ptr (suc fuel) ty s = visit_ptr_kind (visit_ptr fuel) ty (kind ty) s
