-- ===== src/Layout/Lengths.antt =====
-- The lengths of the two layouts of a type.
use rul_checker.Prelude.{
  ℕ, suc, ◌+◌, ◌≡◌, refl, sym, ap, subst, ◌∙◌, Bool, true, false, List, [], ◌∷◌, map, Option, arith,
  length, length-append, length-map, Bool-cases, inl, inr,
}
use rul_checker.Run.{Run, ret, panic, out_of_fuel, Holds, >>=-Holds, Holds-true, Holds-self}
use rul_checker.Rustc.{
  Tcx, TyKind, tuple, adt, array, param, raw_ptr, ref, bool, char, int, uint, float, str, slice,
  other,
}
use rul_checker.Ownership.{
  AdtOwner, OwnershipLayoutResult, new_result, RustBv, update_from_default_ownership_visitor,
}
use rul_checker.Bits.{ownership_layout_to_rustbv, rustbv_merge, zip_or}
use rul_checker.Bits.Layouts.{length-ownership_layout_to_rustbv}
use rul_checker.TypeVisitor.DefaultOwnership.{new_visitor, visit_ty}
use rul_checker.Layout.{
  fields_layout, layout_of_kind, ptr_layout_of_kind, extract_default_ty_layout, generate_ptr_layout,
  adt_fields, field_tys, no_variant, is_ptr,
}
use rul_checker.Layout.Owned.{extract_default_ty_layout-IsSound}

module _ (tcx : Tcx) (owner : AdtOwner) where
  open tcx use {Ty, kind}

  fields_layout-length :
      (fuel : ℕ) (ts : List Ty) (r : OwnershipLayoutResult)
      → Holds
          (λ r'. length r'.layout ≡ length r.layout + length ts)
          (fields_layout tcx owner fuel ts r)
  unfolding fields_layout update_from_default_ownership_visitor
  fields_layout-length fuel [] r = omega arith
  fields_layout-length fuel (t ∷ ts) r =
      >>=-Holds (λ a. Unit) _ (visit_ty tcx owner fuel t new_visitor) _
        (Holds-true (visit_ty tcx owner fuel t new_visitor))
        (λ s _.
          let r' = update_from_default_ownership_visitor r s.1.verdict in
          let longer = length-append r.layout (s.1.verdict.res ∷ []) in
          subst (λ (n : ℕ). Holds (λ q. length q.layout ≡ n) (fields_layout tcx owner fuel ts r'))
            (omega (arith, longer)) (fields_layout-length fuel ts r'))

  -- The pointer layout is returned too, with as many entries.
  abbrev Matches : Run RustBv → OwnershipLayoutResult → Type 0
  Matches m r = (p : RustBv) × (m ≡ ret p) × (length p ≡ length r.layout)

  Matches-map :
      {A : Type 0} (n : ℕ) (xs : List A) (f : A → Bool) (m : Run OwnershipLayoutResult)
      → length xs ≡ n
      → Holds (λ r. length r.layout ≡ 0 + n) m
      → Holds (Matches (ret (map f xs))) m
  Matches-map n xs f (ret r) e h = (map f xs, refl, omega (arith, length-map xs f, h))
  Matches-map n xs f panic e h = tt
  Matches-map n xs f out_of_fuel e h = tt

  fields-Matches :
      {A : Type 0} (fuel : ℕ) (ts : List Ty) (xs : List A) (f : A → Bool)
      → length xs ≡ length ts
      → Holds (Matches (ret (map f xs))) (fields_layout tcx owner fuel ts new_result)
  fields-Matches fuel ts xs f e =
      Matches-map (length ts) xs f (fields_layout tcx owner fuel ts new_result) e
        (fields_layout-length fuel ts new_result)

  layout_of_kind-Matches :
      (fuel : ℕ) (ty : Ty) (k : TyKind Ty) (variant : Option ℕ)
      → Holds
          (Matches (ptr_layout_of_kind tcx k variant))
          (layout_of_kind tcx owner fuel ty k variant)
  unfolding layout_of_kind ptr_layout_of_kind
  layout_of_kind-Matches fuel ty (array t size) variant =
      fields-Matches fuel (ty ∷ []) (ty ∷ []) (λ t. false) refl
  layout_of_kind-Matches fuel ty (tuple list) variant =
      fields-Matches fuel list list (is_ptr tcx) refl
  layout_of_kind-Matches fuel ty (adt d substs) variant =
      elim (Bool-cases (no_variant tcx d variant)) [
        | inl e ↦ rw e ([], refl, refl)
        | inr e ↦ rw e (
            >>=-Holds (λ fs. adt_fields tcx d variant ≡ ret fs) _ (adt_fields tcx d variant) _
              (Holds-self (adt_fields tcx d variant))
              (λ fs found. rw found (
                fields-Matches fuel (field_tys tcx substs fs) fs (λ f. false)
                  (sym (length-map fs _)))))
      ]
  layout_of_kind-Matches fuel ty (param i name) variant = (false ∷ [], refl, refl)
  layout_of_kind-Matches fuel ty (raw_ptr t mutbl) variant = (true ∷ [], refl, refl)
  layout_of_kind-Matches fuel ty (ref region t mutbl) variant = (true ∷ [], refl, refl)
  layout_of_kind-Matches fuel ty bool variant = ([], refl, refl)
  layout_of_kind-Matches fuel ty char variant = ([], refl, refl)
  layout_of_kind-Matches fuel ty (int ity) variant = ([], refl, refl)
  layout_of_kind-Matches fuel ty (uint uty) variant = ([], refl, refl)
  layout_of_kind-Matches fuel ty (float fty) variant = ([], refl, refl)
  layout_of_kind-Matches fuel ty str variant = ([], refl, refl)
  layout_of_kind-Matches fuel ty (slice t) variant = ([], refl, refl)
  layout_of_kind-Matches fuel ty (other n) variant = ([], refl, refl)

  -- Where the default layout of a type is returned, so is its pointer layout, and the assertion of
  -- `rustbv_merge` holds for the two: the merge is returned, with one bit for each field.
  pub rustbv_merge-ret :
      (fuel : ℕ) (ty : Ty) (variant : Option ℕ) {r : OwnershipLayoutResult}
      → extract_default_ty_layout tcx owner fuel ty variant ≡ ret r
      → (p q : RustBv) × (generate_ptr_layout tcx ty variant ≡ ret p)
        × (rustbv_merge (ownership_layout_to_rustbv r.layout) p ≡ ret q)
        × (length q ≡ length r.layout)
  unfolding extract_default_ty_layout generate_ptr_layout rustbv_merge
  rustbv_merge-ret fuel ty variant {r} h =
      let (p, found, same) =
        subst (Holds (Matches (generate_ptr_layout tcx ty variant))) h
          (layout_of_kind-Matches fuel ty (kind ty) variant) in
      let settled = (extract_default_ty_layout-IsSound tcx owner fuel ty variant h).0 in
      let size = length-ownership_layout_to_rustbv r.layout settled in
      (
        p,
        zip_or (ownership_layout_to_rustbv r.layout) p,
        found,
        ground (arith, size),
        length-zip_or (ownership_layout_to_rustbv r.layout) p (size ∙ sym same) ∙ size,
      )
    where
      length-zip_or : (a b : RustBv) → length a ≡ length b → length (zip_or a b) ≡ length a
      length-zip_or [] b e = refl
      length-zip_or (x ∷ a) [] e = absurd (omega arith)
      length-zip_or (x ∷ a) (y ∷ b) e = ap suc (length-zip_or a b (omega arith))
