-- ===== src/TypeVisitor/Phases.antt =====
-- The four passes of `TypeAnalysis::visitor` over the recorded types, in
-- src/analysis/type_analysis/type_visitor.rs: each fills in or improves the units of one type.
pub mod Settled
pub mod Units
pub mod Steps
pub mod Passes
use rul_checker.Prelude.{
  ℕ, zero, suc, Bool, true, false, List, [], ◌∷◌, some, ◌==◌, if◌then◌else◌, length, set,
}
use rul_checker.Run.{Run, ret, panic, ◌>>=◌, index, unwrap}
use rul_checker.Rustc.{
  Tcx, TyKind, adt, DefId, AdtDef, VariantDef, FieldDef, is_enum, is_struct, GenericArg, type_arg,
  lifetime, const_arg,
}
use rul_checker.Ownership.{RawTypeOwner, owned, unowned, AdtOwner, OwnerUnit}
use rul_checker.TypeVisitor.{visit_each, field_tys, all_field_tys}
use rul_checker.TypeVisitor.RawGeneric.{new_raw_generic, visit_raw, contains_param, visit_subst}
use rul_checker.TypeVisitor.Propagation.{visit_prop, visit_owner}
use rul_checker.TypeVisitor.FindPtr.{new_find_ptr, visit_ptr}

-- `adt_owner_mut().insert(did, units)`
abbrev pub insert_owner : AdtOwner → DefId → List OwnerUnit → AdtOwner
insert_owner owner did units d = if d == did then some units else owner d

-- How the search for an owning phantom field goes on: it found one, it returns, or it continues.
pub data Search : Type 0 where
  owns quits goes_on : Search

-- `start_channel`
abbrev pub start_channel : {S : Type 0} → (DefId → S → Run S) → List DefId → S → Run S
start_channel method [] s = ret s
start_channel method (did ∷ dids) s = method did s >>= λ s'. start_channel method dids s'

abbrev pub adt_parts : {T : Type 0} → TyKind T → Run (AdtDef × List (GenericArg T))
adt_parts (adt d substs) = ret (d, substs)
adt_parts _ = panic

-- `fuel` bounds the nesting of the visits.
module _ (tcx : Tcx) (fuel : ℕ) where
  open tcx use {Ty, kind, type_of, all_fields, field_ty}

  -- `tcx.type_of(did)`, which is an `Adt`.
  abbrev pub adt_of : DefId → Run (AdtDef × List (GenericArg Ty))
  adt_of did = adt_parts (kind (type_of did))

  pub raw_units : List (GenericArg Ty) → List VariantDef → Run (List OwnerUnit)
  raw_units substs [] = ret []
  raw_units substs (variant ∷ variants) =
      visit_each (visit_raw tcx fuel) (field_tys tcx variant.fields substs)
        (new_raw_generic (length substs))
      >>= λ flags. raw_units substs variants >>= λ units. ret ((unowned, flags) ∷ units)

  unfoldable pub extract_raw_generic : DefId → AdtOwner → Run AdtOwner
  unfolding raw_units
  extract_raw_generic did owner =
      adt_of did >>= λ a. raw_units a.1 a.0.variants >>= λ units. ret (insert_owner owner did units)

  pub prop_units :
      AdtOwner
      → Bool
      → List (GenericArg Ty)
      → ℕ
      → List VariantDef
      → List OwnerUnit
      → Run (List OwnerUnit)
  prop_units owner source_enum substs i [] v_res = ret v_res
  prop_units owner source_enum substs i (variant ∷ variants) v_res = index v_res i >>= λ res.
      visit_each (visit_prop tcx owner source_enum fuel) (field_tys tcx variant.fields substs)
        (record { flags = res.1; unique = [] })
      >>= λ s. prop_units owner source_enum substs (suc i) variants (set v_res i (unowned, s.flags))

  unfoldable pub extract_raw_generic_prop : DefId → AdtOwner → Run AdtOwner
  unfolding prop_units
  extract_raw_generic_prop did owner = adt_of did >>= λ a. unwrap (owner did) >>= λ v_res.
      prop_units owner (is_enum a.0.adt_kind) a.1 0 a.0.variants v_res >>= λ units.
      ret (insert_owner owner did units)

  -- `has_ptr`: the loop stops at the first field that holds a pointer.
  pub has_ptr : List Ty → Run Bool
  has_ptr [] = ret false
  has_ptr (t ∷ ts) = visit_ptr tcx fuel t new_find_ptr >>= λ r.
      let rest = has_ptr ts in if r.1.ptr then ret true else rest

  -- The loop over the generic arguments of a phantom field.
  pub scan_args : List Ty → List (GenericArg Ty) → Run Search
  unfolding has_ptr
  scan_args tys [] = ret goes_on
  scan_args tys (lifetime region ∷ args) = ret quits
  scan_args tys (const_arg ct ∷ args) = ret quits
  scan_args tys (type_arg t ∷ args) = visit_subst tcx fuel t [] >>= λ r.
      let rest = scan_args tys args in
      if contains_param r.1
      then (has_ptr tys >>= λ found. ret (if found then owns else quits))
      else rest

  abbrev pub phantom_args : TyKind Ty → List (GenericArg Ty)
  phantom_args (adt d substs) = if d.is_phantom_data then substs else []
  phantom_args _ = []

  -- The loop over the fields; a field that is no phantom has no argument to scan.
  pub scan_fields : List Ty → List Ty → Run Search
  unfolding scan_args
  scan_fields tys [] = ret goes_on
  scan_fields tys (t ∷ ts) =
      let rest = scan_fields tys ts in
      scan_args tys (phantom_args (kind t)) >>= λ o. elim o [
        | owns ↦ ret owns
        | quits ↦ ret quits
        | goes_on ↦ rest
      ]

  abbrev pub settle : Search → AdtOwner → DefId → OwnerUnit → AdtOwner
  settle owns owner did res = insert_owner owner did ((owned, res.1) ∷ [])
  settle quits owner did res = owner
  settle goes_on owner did res = owner

  unfoldable pub extract_phantom_unit : DefId → AdtOwner → Run AdtOwner
  unfolding scan_fields
  extract_phantom_unit did owner = adt_of did >>= λ a.
      if is_struct a.0.adt_kind
      then (unwrap (owner did) >>= λ units. index units 0 >>= λ res.
          let tys = all_field_tys tcx a.0 a.1 in
          scan_fields tys tys >>= λ o. ret (settle o owner did res))
      else ret owner

  pub owner_units :
      AdtOwner → List (GenericArg Ty) → ℕ → List VariantDef → List OwnerUnit → Run (List OwnerUnit)
  owner_units owner substs i [] v_res = ret v_res
  owner_units owner substs i (variant ∷ variants) v_res = index v_res i >>= λ res.
      visit_each (visit_owner tcx owner fuel) (field_tys tcx variant.fields substs)
        (record { ownership = res.0; unique = [] })
      >>= λ s. owner_units owner substs (suc i) variants (set v_res i (s.ownership, res.1))

  unfoldable pub extract_owner_prop : DefId → AdtOwner → Run AdtOwner
  unfolding owner_units
  extract_owner_prop did owner = adt_of did >>= λ a. unwrap (owner did) >>= λ v_res.
      owner_units owner a.1 0 a.0.variants v_res >>= λ units. ret (insert_owner owner did units)

  -- The four passes, one after the other over all recorded types.
  unfoldable pub run_passes : List DefId → AdtOwner → Run AdtOwner
  unfolding extract_raw_generic extract_raw_generic_prop extract_phantom_unit extract_owner_prop
  run_passes dids owner = start_channel extract_raw_generic dids owner >>= λ o1.
      start_channel extract_raw_generic_prop dids o1 >>= λ o2.
      start_channel extract_phantom_unit dids o2 >>= λ o3. start_channel extract_owner_prop dids o3
