-- ===== src/Layout/Owned.antt =====
-- The entries and the flags of a default layout.
use rul_checker.Prelude.{
  ℕ, ◌≡◌, ◌≢◌, refl, subst, Bool, true, false, ◌||◌, List, [], ◌∷◌, ◌++◌, Option, arith, All-append,
  Bool-cases, inl, inr,
}
use rul_checker.Run.{ret, Holds, >>=-Holds, Holds-true}
use rul_checker.Rustc.{
  Tcx, TyKind, tuple, adt, array, param, raw_ptr, ref, bool, char, int, uint, float, str, slice,
  other,
}
use rul_checker.Ownership.{
  uninit, is_owned, AdtOwner, OwnershipLayout, OwnershipLayoutResult, new_result, RawTypeOwner,
  update_from_default_ownership_visitor, Verdict,
}
use rul_checker.Bits.Layouts.{IsSettled}
use rul_checker.TypeVisitor.DefaultOwnership.{new_visitor, visit_ty}
use rul_checker.TypeVisitor.DefaultOwnership.Decided.{
  owned-ne, Decided, Fine, visit_ty-Holds, unowned-ne,
}
use rul_checker.Layout.{
  fields_layout, layout_of_kind, extract_default_ty_layout, adt_fields, field_tys, no_variant,
}

module _ (tcx : Tcx) (owner : AdtOwner) where
  open tcx use {Ty, kind, all_fields}

  abbrev pub any_owned : OwnershipLayout → Bool
  any_owned [] = false
  any_owned (o ∷ os) = is_owned o || any_owned os

  -- Every field is settled, the flag says whether some field is owned, and then the type is required.
  abbrev pub IsSound : OwnershipLayoutResult → Type 0
  IsSound r =
      IsSettled r.layout
      × (r.owned_flag ≡ any_owned r.layout)
      × (r.owned_flag ≡ true → r.requirement ≡ true)

  any_owned-append :
      (l : OwnershipLayout) (o : RawTypeOwner)
      → any_owned (l ++ o ∷ []) ≡ (any_owned l || is_owned o)
  any_owned-append [] o = ground arith
  any_owned-append (x ∷ l) o = ground (arith, any_owned-append l o)

  update-IsSound :
      (r : OwnershipLayoutResult) (d : Verdict)
      → IsSound r
      → Decided d
      → IsSound (update_from_default_ownership_visitor r d)
  unfolding update_from_default_ownership_visitor
  update-IsSound r d h k = (
    All-append (λ o. o ≢ uninit) r.layout (d.res ∷ []) h.0 (k.0, tt),
    ground (arith, any_owned-append r.layout d.res, h),
    ground (arith, h),
  )

  fields_layout-Holds :
      (fuel : ℕ) (ts : List Ty) (r : OwnershipLayoutResult)
      → IsSound r
      → Holds IsSound (fields_layout tcx owner fuel ts r)
  unfolding fields_layout
  fields_layout-Holds fuel [] r h = h
  fields_layout-Holds fuel (t ∷ ts) r h =
      >>=-Holds Fine IsSound (visit_ty tcx owner fuel t new_visitor) _
        (visit_ty-Holds tcx owner fuel t new_visitor (unowned-ne, λ e. absurd (ground arith)))
        (λ s k. fields_layout-Holds fuel ts _ (update-IsSound r s.1.verdict h k))

  fresh : IsSound new_result
  fresh = (tt, refl, λ e. absurd (ground arith))

  layout_of_kind-Holds :
      (fuel : ℕ) (ty : Ty) (k : TyKind Ty) (variant : Option ℕ)
      → Holds IsSound (layout_of_kind tcx owner fuel ty k variant)
  unfolding layout_of_kind
  layout_of_kind-Holds fuel ty (array t size) variant =
      fields_layout-Holds fuel (ty ∷ []) new_result fresh
  layout_of_kind-Holds fuel ty (tuple list) variant = fields_layout-Holds fuel list new_result fresh
  layout_of_kind-Holds fuel ty (adt d substs) variant =
      elim (Bool-cases (no_variant tcx d variant)) [
        | inl e ↦ rw e fresh
        | inr e ↦ rw e (
            >>=-Holds (λ a. Unit) IsSound (adt_fields tcx d variant) _
              (Holds-true (adt_fields tcx d variant))
              (λ fs _. fields_layout-Holds fuel (field_tys tcx substs fs) new_result fresh))
      ]
  layout_of_kind-Holds fuel ty (param i name) variant = ((owned-ne, tt), refl, λ e. refl)
  layout_of_kind-Holds fuel ty (raw_ptr t mutbl) variant = ((unowned-ne, tt), refl, λ e. refl)
  layout_of_kind-Holds fuel ty (ref region t mutbl) variant = ((unowned-ne, tt), refl, λ e. refl)
  layout_of_kind-Holds fuel ty bool variant = fresh
  layout_of_kind-Holds fuel ty char variant = fresh
  layout_of_kind-Holds fuel ty (int ity) variant = fresh
  layout_of_kind-Holds fuel ty (uint uty) variant = fresh
  layout_of_kind-Holds fuel ty (float fty) variant = fresh
  layout_of_kind-Holds fuel ty str variant = fresh
  layout_of_kind-Holds fuel ty (slice t) variant = fresh
  layout_of_kind-Holds fuel ty (other n) variant = fresh

  -- A default layout that is returned has no uninitialised field; its `owned_flag` says whether
  -- some field is owned, and then its `requirement` is set.
  pub extract_default_ty_layout-IsSound :
      (fuel : ℕ) (ty : Ty) (variant : Option ℕ) {r : OwnershipLayoutResult}
      → extract_default_ty_layout tcx owner fuel ty variant ≡ ret r
      → IsSound r
  unfolding extract_default_ty_layout
  extract_default_ty_layout-IsSound fuel ty variant h =
      subst (Holds IsSound) h (layout_of_kind-Holds fuel ty (kind ty) variant)
