-- ===== src/TypeVisitor/Propagation.antt =====
-- The visitors `RawGenericPropagation` and `OwnerPropagation` of
-- src/analysis/type_analysis/type_visitor.rs: the flags and the ownership of the types inside a type
-- become its own. Each nesting of visits takes one unit of fuel.
pub mod Owner
pub mod Marks
pub mod Flags
use rul_checker.Prelude.{
  ℕ, zero, suc, Bool, true, false, not, ◌&&◌, List, [], ◌∷◌, ◌==◌, if◌then◌else◌,
}
use rul_checker.Run.{Run, ret, out_of_fuel, ◌>>=◌, unwrap}
use rul_checker.Rustc.{Tcx, TyKind, tuple, adt, array, DefId, AdtDef, is_enum, GenericArg, type_arg}
use rul_checker.Ownership.{RawTypeOwner, owned, AdtOwner, OwnerUnit}
use rul_checker.TypeVisitor.{
  ControlFlow, continue, break, Visit, visit_all, visit_each, contains, remove, all_field_tys,
}
use rul_checker.TypeVisitor.RawGeneric.{
  RawGeneric, mark, Parameters, is_empty, contains_param, visit_subst,
}

-- The fields that change: `record` and `unique`.
pub record RawGenericPropagation : Type 0 where
  pub flags : List Bool
  pub unique : List DefId

-- The fields that change: `ownership` and `unique`.
pub record OwnerPropagation : Type 0 where
  pub ownership : RawTypeOwner
  pub unique : List DefId

-- `map_raw_generic_field_subst`: the parameters in each generic argument that has some.
pub params_of_args :
    {T : Type 0} → Visit T Parameters → ℕ → List (GenericArg T) → Run (List (ℕ × Parameters))
params_of_args w i [] = ret []
params_of_args w i (type_arg t ∷ args) = w t [] >>= λ r.
    params_of_args w (suc i) args >>= λ m. ret (if contains_param r.1 then (i, r.1) ∷ m else m)
params_of_args w i (_ ∷ args) = params_of_args w (suc i) args

-- The parameters under a key, none if the key is missing.
abbrev pub params_at : List (ℕ × Parameters) → ℕ → Parameters
params_at [] i = []
params_at ((j, ps) ∷ m) i = if j == i then ps else params_at m i

-- `for elem in … { self.record[*elem] = true; }`
pub mark_each : Parameters → RawGeneric → Run RawGeneric
mark_each [] s = ret s
mark_each (p ∷ ps) s = mark s p >>= λ s'. mark_each ps s'

-- The loop over the flags of the unit.
pub mark_flags : List (ℕ × Parameters) → ℕ → List Bool → RawGeneric → Run RawGeneric
unfolding mark_each
mark_flags m i [] s = ret s
mark_flags m i (false ∷ fs) s = mark_flags m (suc i) fs s
mark_flags m i (true ∷ fs) s = mark_each (params_at m i) s >>= λ s'. mark_flags m (suc i) fs s'

module _ (tcx : Tcx) (owner : AdtOwner) where
  open tcx use {Ty, kind, super_tys}

  -- From `get_ans` on: the first unit, the fields, then the components of the type.
  pub visit_prop_unit :
      Visit Ty RawGenericPropagation
      → Ty
      → AdtDef
      → List (GenericArg Ty)
      → List (ℕ × Parameters)
      → List OwnerUnit
      → RawGenericPropagation
      → Run (ControlFlow × RawGenericPropagation)
  unfolding mark_flags
  visit_prop_unit v ty d substs m [] s = ret (break, s)
  visit_prop_unit v ty d substs m (unit ∷ _) s = mark_flags m 0 unit.1 s.flags >>= λ fs.
      visit_each v (all_field_tys tcx d substs) (record s { flags = fs }) >>= λ s'.
      visit_all v (super_tys ty) (record s' { unique = remove s'.unique d.did })

  pub visit_prop_args :
      Visit Ty RawGenericPropagation
      → Ty
      → AdtDef
      → List (GenericArg Ty)
      → List (ℕ × Parameters)
      → RawGenericPropagation
      → Run (ControlFlow × RawGenericPropagation)
  unfolding visit_prop_unit
  visit_prop_args v ty d substs [] s = ret (break, s)
  visit_prop_args v ty d substs (p ∷ m) s =
      unwrap (owner d.did) >>= λ units. visit_prop_unit v ty d substs (p ∷ m) units s

  pub visit_prop_kind :
      Bool
      → Visit Ty Parameters
      → Visit Ty RawGenericPropagation
      → Ty
      → TyKind Ty
      → RawGenericPropagation
      → Run (ControlFlow × RawGenericPropagation)
  unfolding visit_prop_args params_of_args
  visit_prop_kind source_enum w v ty (adt d substs) s =
      if is_empty substs
      then ret (break, s)
      else if not source_enum && is_enum d.adt_kind
      then ret (break, s)
      else if contains s.unique d.did
      then ret (continue, s)
      else (params_of_args w 0 substs >>= λ m.
          visit_prop_args v ty d substs m (record s { unique = d.did ∷ s.unique }))
  visit_prop_kind source_enum w v ty (array t size) s = visit_all v (super_tys ty) s
  visit_prop_kind source_enum w v ty (tuple ts) s = visit_all v (super_tys ty) s
  visit_prop_kind source_enum w v ty k s = ret (continue, s)

  unfoldable pub visit_prop : Bool → ℕ → Visit Ty RawGenericPropagation
  unfolding visit_prop_kind
  visit_prop source_enum zero ty s = out_of_fuel
  visit_prop source_enum (suc fuel) ty s =
      visit_prop_kind source_enum (visit_subst tcx fuel) (visit_prop source_enum fuel) ty (kind ty)
        s

  pub visit_owner_unit :
      Visit Ty OwnerPropagation
      → Ty
      → AdtDef
      → List (GenericArg Ty)
      → List OwnerUnit
      → OwnerPropagation
      → Run (ControlFlow × OwnerPropagation)
  visit_owner_unit v ty d substs [] s = ret (break, s)
  visit_owner_unit v ty d substs ((owned, _) ∷ _) s = ret (break, record s { ownership = owned })
  visit_owner_unit v ty d substs (_ ∷ _) s = visit_each v (all_field_tys tcx d substs) s >>= λ s'.
      visit_all v (super_tys ty) (record s' { unique = remove s'.unique d.did })

  pub visit_owner_kind :
      Visit Ty OwnerPropagation
      → Ty
      → TyKind Ty
      → OwnerPropagation
      → Run (ControlFlow × OwnerPropagation)
  unfolding visit_owner_unit
  visit_owner_kind v ty (adt d substs) s =
      if contains s.unique d.did
      then ret (continue, s)
      else if is_enum d.adt_kind
      then ret (break, record s { unique = d.did ∷ s.unique })
      else (unwrap (owner d.did) >>= λ units.
          visit_owner_unit v ty d substs units (record s { unique = d.did ∷ s.unique }))
  visit_owner_kind v ty (array t size) s = visit_all v (super_tys ty) s
  visit_owner_kind v ty (tuple ts) s = visit_all v (super_tys ty) s
  visit_owner_kind v ty k s = ret (continue, s)

  unfoldable pub visit_owner : ℕ → Visit Ty OwnerPropagation
  unfolding visit_owner_kind
  visit_owner zero ty s = out_of_fuel
  visit_owner (suc fuel) ty s = visit_owner_kind (visit_owner fuel) ty (kind ty) s
