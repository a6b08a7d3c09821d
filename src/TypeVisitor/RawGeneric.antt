-- ===== src/TypeVisitor/RawGeneric.antt =====
-- The visitors `RawGeneric` and `RawGenericFieldSubst` of src/analysis/type_analysis/type_visitor.rs,
-- with their structs in src/analysis/type_analysis.rs: which generic parameters a type stores raw,
-- and which it mentions at all. Each nesting of visits takes one unit of fuel.
pub mod Params
pub mod Bounded
use rul_checker.Prelude.{ℕ, zero, suc, Bool, true, false, not, List, [], ◌∷◌, set, replicate}
use rul_checker.Run.{Run, ret, out_of_fuel, ◌>>=◌, index}
use rul_checker.Rustc.{Tcx, TyKind, tuple, adt, array, param}
use rul_checker.TypeVisitor.{ControlFlow, continue, break, Visit, visit_all, insert}

-- The one field of `RawGeneric` that changes: `record`.
abbrev pub RawGeneric : Type 0
RawGeneric = List Bool

abbrev pub new_raw_generic : ℕ → RawGeneric
new_raw_generic len = replicate len false

-- `record[i] = true`
abbrev pub mark : RawGeneric → ℕ → Run RawGeneric
mark s i = index s i >>= λ b. ret (set s i true)

-- The one field of `RawGenericFieldSubst` that changes: `parameters`, a set of indices.
abbrev pub Parameters : Type 0
Parameters = List ℕ

abbrev pub is_empty : {A : Type 0} → List A → Bool
is_empty [] = true
is_empty (x ∷ xs) = false

abbrev pub contains_param : Parameters → Bool
contains_param ps = not (is_empty ps)

module _ (tcx : Tcx) where
  open tcx use {Ty, kind, super_tys}

  pub visit_raw_kind :
      Visit Ty RawGeneric → Ty → TyKind Ty → RawGeneric → Run (ControlFlow × RawGeneric)
  visit_raw_kind v ty (array t size) s = visit_all v (super_tys ty) s
  visit_raw_kind v ty (tuple ts) s = visit_all v (super_tys ty) s
  visit_raw_kind v ty (param i name) s = mark s i >>= λ s'. ret (continue, s')
  visit_raw_kind v ty k s = ret (continue, s)

  unfoldable pub visit_raw : ℕ → Visit Ty RawGeneric
  unfolding visit_raw_kind
  visit_raw zero ty s = out_of_fuel
  visit_raw (suc fuel) ty s = visit_raw_kind (visit_raw fuel) ty (kind ty) s

  pub visit_subst_kind :
      Visit Ty Parameters → Ty → TyKind Ty → Parameters → Run (ControlFlow × Parameters)
  visit_subst_kind v ty (array t size) s = visit_all v (super_tys ty) s
  visit_subst_kind v ty (tuple ts) s = visit_all v (super_tys ty) s
  visit_subst_kind v ty (adt d substs) s = visit_all v (super_tys ty) s
  visit_subst_kind v ty (param i name) s = ret (continue, insert s i)
  visit_subst_kind v ty k s = ret (continue, s)

  unfoldable pub visit_subst : ℕ → Visit Ty Parameters
  unfolding visit_subst_kind
  visit_subst zero ty s = out_of_fuel
  visit_subst (suc fuel) ty s = visit_subst_kind (visit_subst fuel) ty (kind ty) s
