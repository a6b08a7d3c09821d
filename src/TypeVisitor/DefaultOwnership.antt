-- ===== src/TypeVisitor/DefaultOwnership.antt =====
-- The visitor `DefaultOwnership`: whether a type owns heap memory, is or holds a generic parameter,
-- or holds a pointer. Each nesting of visits takes one unit of fuel.
pub mod Decided
pub mod Ends
use rul_checker.Prelude.{ℕ, zero, suc, Bool, true, false, List, [], ◌∷◌, if◌then◌else◌}
use rul_checker.Run.{Run, ret, panic, out_of_fuel, ◌>>=◌, index, unwrap}
use rul_checker.Rustc.{
  Tcx, TyKind, tuple, adt, array, param, raw_ptr, ref, DefId, AdtDef, is_enum, GenericArg, type_arg,
}
use rul_checker.Ownership.{RawTypeOwner, owned, unowned, uninit, AdtOwner, Verdict}
use rul_checker.TypeVisitor.{ControlFlow, continue, break, Visit, visit_all, contains, remove}

-- The fields that change: `unique` and the three parts of the verdict.
pub record DefaultOwnership : Type 0 where
  pub unique : List DefId
  pub verdict : Verdict
  pub open verdict use *

abbrev pub new_visitor : DefaultOwnership
new_visitor = record { unique = []; verdict = record { res = unowned; param = false; ptr = false } }

abbrev pub set_res : DefaultOwnership → RawTypeOwner → DefaultOwnership
set_res s r = record s { verdict = record { res = r; param = s.param; ptr = s.ptr } }

abbrev pub set_ptr : DefaultOwnership → DefaultOwnership
set_ptr s = record s { verdict = record { res = s.res; param = s.param; ptr = true } }

-- A generic parameter counts as owned.
abbrev pub set_param : DefaultOwnership → DefaultOwnership
set_param s = record s { verdict = record { res = owned; param = true; ptr = s.ptr } }

-- `substs[index].expect_ty()`
abbrev pub expect_ty : {T : Type 0} → GenericArg T → Run T
expect_ty (type_arg t) = ret t
expect_ty _ = panic

-- The loop over the generic parameters of an unowned type: those that are stored raw are visited.
pub visit_generics :
    {T : Type 0}
    → Visit T DefaultOwnership
    → List (GenericArg T)
    → DefId
    → ℕ
    → List Bool
    → DefaultOwnership
    → Run DefaultOwnership
visit_generics v substs did i [] s = ret s
visit_generics v substs did i (false ∷ gs) s = visit_generics v substs did (suc i) gs s
visit_generics v substs did i (true ∷ gs) s = index substs i >>= λ arg. expect_ty arg >>= λ t.
    v t (record s { unique = remove s.unique did }) >>= λ r.
    visit_generics v substs did (suc i) gs r.1

-- The arm of an `Adt` that is no enum and was not met before.
pub visit_unit :
    {T : Type 0}
    → Visit T DefaultOwnership
    → AdtDef
    → List (GenericArg T)
    → List (RawTypeOwner × List Bool)
    → DefaultOwnership
    → Run (ControlFlow × DefaultOwnership)
unfolding visit_generics
visit_unit v d substs [] s = ret (break, s)
visit_unit v d substs ((owned, generics) ∷ _) s = ret (break, set_res s owned)
visit_unit v d substs ((unowned, generics) ∷ _) s =
    visit_generics v substs d.did 0 generics s >>= λ s'. ret (continue, s')
visit_unit v d substs ((uninit, generics) ∷ _) s = panic

module _ (tcx : Tcx) (owner : AdtOwner) where
  open tcx use {Ty, kind, super_tys}

  pub visit_kind :
      Visit Ty DefaultOwnership
      → Ty
      → TyKind Ty
      → DefaultOwnership
      → Run (ControlFlow × DefaultOwnership)
  unfolding visit_unit
  visit_kind v ty (adt d substs) s =
      if is_enum d.adt_kind
      then ret (break, s)
      else if contains s.unique d.did
      then ret (continue, s)
      else (unwrap (owner d.did) >>= λ units.
          visit_unit v d substs units (record s { unique = d.did ∷ s.unique }))
  visit_kind v ty (array t size) s = visit_all v (super_tys ty) s
  visit_kind v ty (tuple ts) s = visit_all v (super_tys ty) s
  visit_kind v ty (param i name) s = ret (break, set_param s)
  visit_kind v ty (raw_ptr t mutbl) s = ret (continue, set_ptr s)
  visit_kind v ty (ref region t mutbl) s = ret (continue, set_ptr s)
  visit_kind v ty k s = ret (continue, s)

  unfoldable pub visit_ty : ℕ → Visit Ty DefaultOwnership
  unfolding visit_kind
  visit_ty zero ty s = out_of_fuel
  visit_ty (suc fuel) ty s = visit_kind (visit_ty fuel) ty (kind ty) s
