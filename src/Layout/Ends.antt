-- ===== src/Layout/Ends.antt =====
-- The fuel of `extract_default_ty_layout`.
use rul_checker.Prelude.{
  ℕ, suc, ◌+◌, ◌≤◌, List, [], ◌∷◌, Option, none, some, arith, Bool-cases, inl, inr, ◌||◌,
}
use rul_checker.Run.{Run, ret, panic, out_of_fuel, ◌>>=◌, index, Ends, >>=-Ends, Ends-unwrap}
use rul_checker.Rustc.{
  Tcx, TyKind, tuple, adt, array, param, raw_ptr, ref, bool, char, int, uint, float, str, slice,
  other, AdtDef, FieldDef, is_struct, is_union,
}
use rul_checker.Ownership.{AdtOwner, OwnershipLayoutResult, new_result}
use rul_checker.TypeVisitor.DefaultOwnership.{new_visitor, visit_ty}
use rul_checker.TypeVisitor.DefaultOwnership.Ends.{IsRanked, visit_ty-Ends}
use rul_checker.Layout.{
  fields_layout, layout_of_kind, extract_default_ty_layout, adt_fields, field_tys, no_variant,
}

module _ (tcx : Tcx) (owner : AdtOwner) (rank : tcx.Ty → ℕ) (ranked : IsRanked tcx owner rank) where
  open tcx use {Ty, kind}

  -- From some amount of fuel on, the outcome is a value or a panic.
  abbrev Enough : {A : Type 0} → (ℕ → Run A) → Type 0
  Enough m = (least : ℕ) × ((fuel : ℕ) → least ≤ fuel → Ends (m fuel))

  fields_layout-Enough :
      (ts : List Ty)
      → (least : ℕ) × ((fuel : ℕ)
          → least ≤ fuel
          → (r : OwnershipLayoutResult) → Ends (fields_layout tcx owner fuel ts r))
  unfolding fields_layout
  fields_layout-Enough [] = (0, λ fuel h r. tt)
  fields_layout-Enough (t ∷ ts) =
      let (least, ends) = fields_layout-Enough ts in
      (
        least + suc (rank t),
        λ fuel h r.
            >>=-Ends (visit_ty tcx owner fuel t new_visitor) _
              (visit_ty-Ends tcx owner rank ranked fuel t (omega arith) new_visitor)
              (λ q. ends fuel (omega arith) _),
      )

  fields-Enough : (ts : List Ty) → Enough (λ fuel. fields_layout tcx owner fuel ts new_result)
  fields-Enough ts =
      let (least, ends) = fields_layout-Enough ts in (least, λ fuel h. ends fuel h new_result)

  adt-Enough :
      (substs : _) (m : Run (List FieldDef))
      → Ends m
      → Enough
          (λ fuel. m >>= λ fs. fields_layout tcx owner fuel (field_tys tcx substs fs) new_result)
  adt-Enough substs (ret fs) h = fields-Enough (field_tys tcx substs fs)
  adt-Enough substs panic h = (0, λ fuel k. tt)
  adt-Enough substs out_of_fuel h = absurd h

  adt_fields-Ends : (d : AdtDef) (variant : Option ℕ) → Ends (adt_fields tcx d variant)
  adt_fields-Ends d none = tt
  adt_fields-Ends d (some vidx) = elim (Bool-cases (is_struct d.adt_kind || is_union d.adt_kind)) [
    | inl e ↦ rw e tt
    | inr e ↦ rw e (>>=-Ends (index d.variants vidx) _ (Ends-unwrap _) (λ v. tt))
  ]

  layout_of_kind-Enough :
      (ty : Ty) (k : TyKind Ty) (variant : Option ℕ)
      → Enough (λ fuel. layout_of_kind tcx owner fuel ty k variant)
  unfolding layout_of_kind
  layout_of_kind-Enough ty (array t size) variant = fields-Enough (ty ∷ [])
  layout_of_kind-Enough ty (tuple list) variant = fields-Enough list
  layout_of_kind-Enough ty (adt d substs) variant = elim (Bool-cases (no_variant tcx d variant)) [
    | inl e ↦ rw e (0, λ fuel h. tt)
    | inr e ↦ rw e (adt-Enough substs (adt_fields tcx d variant) (adt_fields-Ends d variant))
  ]
  layout_of_kind-Enough ty (param i name) variant = (0, λ fuel h. tt)
  layout_of_kind-Enough ty (raw_ptr t mutbl) variant = (0, λ fuel h. tt)
  layout_of_kind-Enough ty (ref region t mutbl) variant = (0, λ fuel h. tt)
  layout_of_kind-Enough ty bool variant = (0, λ fuel h. tt)
  layout_of_kind-Enough ty char variant = (0, λ fuel h. tt)
  layout_of_kind-Enough ty (int ity) variant = (0, λ fuel h. tt)
  layout_of_kind-Enough ty (uint uty) variant = (0, λ fuel h. tt)
  layout_of_kind-Enough ty (float fty) variant = (0, λ fuel h. tt)
  layout_of_kind-Enough ty str variant = (0, λ fuel h. tt)
  layout_of_kind-Enough ty (slice t) variant = (0, λ fuel h. tt)
  layout_of_kind-Enough ty (other n) variant = (0, λ fuel h. tt)

  -- Where a rank falls from every type to its parts, some amount of fuel is enough for the default
  -- layout of a type: with it and with any more the computation ends, in a layout or a panic.
  pub extract_default_ty_layout-Enough :
      (ty : Ty) (variant : Option ℕ)
      → (least : ℕ) × ((extra : ℕ)
          → Ends (extract_default_ty_layout tcx owner (least + extra) ty variant))
  unfolding extract_default_ty_layout
  extract_default_ty_layout-Enough ty variant =
      let (least, ends) = layout_of_kind-Enough ty (kind ty) variant in
      (least, λ extra. ends (least + extra) (omega arith))
