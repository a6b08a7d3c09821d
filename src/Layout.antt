-- ===== src/Layout.antt =====
-- The default layouts of a type, src/analysis/flow_analysis/intro_visitor.rs:
-- `extract_default_ty_layout` says of each field whether it owns heap memory,
-- `generate_ptr_layout` whether it is a pointer.
pub mod Lengths
pub mod Owned
pub mod Ends
use rul_checker.Prelude.{
  ℕ, Bool, true, false, ◌||◌, List, [], ◌∷◌, ◌++◌, map, Option, none, some, if◌then◌else◌,
}
use rul_checker.Run.{Run, ret, ◌>>=◌, index}
use rul_checker.Rustc.{
  Tcx, TyKind, tuple, adt, array, param, raw_ptr, ref, AdtDef, FieldDef, GenericArg, is_enum,
  is_struct, is_union, is_unsafe_ptr, is_region_ptr,
}
use rul_checker.Ownership.{
  owned, unowned, AdtOwner, OwnershipLayoutResult, new_result, RustBv,
  update_from_default_ownership_visitor,
}
use rul_checker.TypeVisitor.DefaultOwnership.{new_visitor, visit_ty}

module _ (tcx : Tcx) where
  open tcx use {Ty, kind, all_fields, field_ty}

  -- `field.ty(tcx, substs)` of each field.
  abbrev pub field_tys : List (GenericArg Ty) → List FieldDef → List Ty
  field_tys substs fs = map (λ f. field_ty f substs) fs

  -- The fields of a struct or union, or of the given variant of an enum.
  abbrev pub adt_fields : AdtDef → Option ℕ → Run (List FieldDef)
  adt_fields d none = ret (all_fields d)
  adt_fields d (some vidx) =
      if is_struct d.adt_kind || is_union d.adt_kind
      then ret (all_fields d)
      else (index d.variants vidx >>= λ v. ret v.fields)

  abbrev pub no_variant : AdtDef → Option ℕ → Bool
  no_variant d none = is_enum d.adt_kind
  no_variant d (some vidx) = false

  module _ (owner : AdtOwner) (fuel : ℕ) where
    -- The loop over the fields: a fresh visitor for each, whose verdict is taken up.
    unfoldable pub fields_layout : List Ty → OwnershipLayoutResult → Run OwnershipLayoutResult
    fields_layout [] res = ret res
    fields_layout (t ∷ ts) res = visit_ty tcx owner fuel t new_visitor >>= λ r.
        fields_layout ts (update_from_default_ownership_visitor res r.1.verdict)

    pub layout_of_kind : Ty → TyKind Ty → Option ℕ → Run OwnershipLayoutResult
    unfolding fields_layout
    layout_of_kind ty (array t size) variant = fields_layout (ty ∷ []) new_result
    layout_of_kind ty (tuple list) variant = fields_layout list new_result
    layout_of_kind ty (adt d substs) variant =
        if no_variant d variant
        then ret new_result
        else (adt_fields d variant >>= λ fs. fields_layout (field_tys substs fs) new_result)
    layout_of_kind ty (param i name) variant =
        ret (record { layout = owned ∷ []; param = true; requirement = true; owned_flag = true })
    layout_of_kind ty (raw_ptr t mutbl) variant =
        ret
          (record { layout = unowned ∷ []; param = false; requirement = true; owned_flag = false })
    layout_of_kind ty (ref region t mutbl) variant =
        ret
          (record { layout = unowned ∷ []; param = false; requirement = true; owned_flag = false })
    layout_of_kind ty k variant = ret new_result

    unfoldable pub extract_default_ty_layout : Ty → Option ℕ → Run OwnershipLayoutResult
    unfolding layout_of_kind
    extract_default_ty_layout ty variant = layout_of_kind ty (kind ty) variant

  abbrev pub is_ptr : Ty → Bool
  is_ptr t = is_region_ptr (kind t) || is_unsafe_ptr (kind t)

  pub ptr_layout_of_kind : TyKind Ty → Option ℕ → Run RustBv
  ptr_layout_of_kind (array t size) variant = ret (false ∷ [])
  ptr_layout_of_kind (tuple list) variant = ret (map is_ptr list)
  ptr_layout_of_kind (adt d substs) variant =
      if no_variant d variant
      then ret []
      else (adt_fields d variant >>= λ fs. ret (map (λ f. false) fs))
  ptr_layout_of_kind (param i name) variant = ret (false ∷ [])
  ptr_layout_of_kind (raw_ptr t mutbl) variant = ret (true ∷ [])
  ptr_layout_of_kind (ref region t mutbl) variant = ret (true ∷ [])
  ptr_layout_of_kind k variant = ret []

  unfoldable pub generate_ptr_layout : Ty → Option ℕ → Run RustBv
  unfolding ptr_layout_of_kind
  generate_ptr_layout ty variant = ptr_layout_of_kind (kind ty) variant

  some_ptr : List Ty → Bool
  some_ptr [] = false
  some_ptr (t ∷ ts) = is_ptr t || some_ptr ts

  place_ptr_of_kind : TyKind Ty → Bool
  unfolding some_ptr
  place_ptr_of_kind (tuple list) = some_ptr list
  place_ptr_of_kind (raw_ptr t mutbl) = true
  place_ptr_of_kind (ref region t mutbl) = true
  place_ptr_of_kind k = false

  unfoldable pub is_place_containing_ptr : Ty → Bool
  unfolding place_ptr_of_kind
  is_place_containing_ptr ty = place_ptr_of_kind (kind ty)
