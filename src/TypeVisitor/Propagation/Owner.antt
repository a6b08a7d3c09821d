-- ===== src/TypeVisitor/Propagation/Owner.antt =====
-- The visits of `OwnerPropagation` return, also on recursive types, and only raise the ownership.
use rul_checker.Prelude.{
  ℕ, suc, ◌+◌, ◌*◌, ◌<◌, ◌≤◌, ◌≡◌, refl, ◌∙◌, true, false, List, [], ◌∷◌, some, arith, All, All-map,
  All-true, length, Bool-cases, ◌⊎◌, inl, inr,
}
use rul_checker.Run.{◌>>=◌, unwrap-Returns, Returns}
use rul_checker.Rustc.{Tcx, TyKind, tuple, adt, array, DefId, AdtDef, GenericArg, is_enum}
use rul_checker.Rustc.Shape.{Shape, fields_of, dids_of}
use rul_checker.Ownership.{owned, unowned, uninit, AdtOwner, OwnerUnit}
use rul_checker.TypeVisitor.{Visit, visit_all, visit_each, contains, remove, all_field_tys}
use rul_checker.TypeVisitor.Propagation.{
  OwnerPropagation, visit_owner_unit, visit_owner_kind, visit_owner,
}
use rul_checker.TypeVisitor.Total.Unique.{
  Grows, Grows-refl, Grows-cons, Grows-inside, missing, missing-cons, missing-le-length,
}
use rul_checker.TypeVisitor.Total.Nested.{
  Returning, visit_parts, visit_nested, visit_fields, fuel-start, Returning-Step,
}

-- The ownership stays, or becomes `owned`.
abbrev pub Raised : OwnerPropagation → OwnerPropagation → Type 0
Raised a b = (b.ownership ≡ a.ownership) ⊎ (b.ownership ≡ owned)

Raised-trans : (a b c : OwnerPropagation) → Raised a b → Raised b c → Raised a c
Raised-trans a b c h (inr k) = inr k
Raised-trans a b c (inl h) (inl k) = inl (k ∙ h)
Raised-trans a b c (inr h) (inl k) = inr (k ∙ h)

abbrev pub Advanced : OwnerPropagation → OwnerPropagation → Type 0
Advanced a b = Grows a.unique b.unique × Raised a b

Advanced-refl : (s : OwnerPropagation) → Advanced s s
Advanced-refl s = (Grows-refl s.unique, inl refl)

abbrev Any : {A : Type 0} → A → Type 0
Any a = Unit

-- Every recorded definition has its units.
abbrev pub HasUnits : AdtOwner → DefId → Type 0
HasUnits owner d = (units : List OwnerUnit) × (owner d ≡ some units)

module _ (tcx : Tcx) (owner : AdtOwner) (dids : List DefId) where
  open tcx use {Ty, kind, super_tys}

  abbrev Done : Visit Ty OwnerPropagation → ℕ → Ty → Type 0
  Done v = Returning (λ s. s.unique) Raised (λ s. inl refl) Raised-trans Any (λ a b h k. tt) dids v

  visit_inside :
      (v : Visit Ty OwnerPropagation) (m : ℕ) (ty : Ty) (d : AdtDef) (substs : List (GenericArg Ty))
      (s : OwnerPropagation)
      → contains s.unique d.did ≡ false
      → contains dids d.did ≡ true
      → ((m' : ℕ) → m' < m → All (Done v m') (fields_of tcx (adt d substs)))
      → All (Done v m) (super_tys ty)
      → missing dids s.unique ≤ m
      → let inside : OwnerPropagation = record s { unique = d.did ∷ s.unique } in
        Returns
          (λ r. Advanced s r.1)
          (visit_each v (all_field_tys tcx d substs) inside >>= λ s'.
            visit_all v (super_tys ty) (record s' { unique = remove s'.unique d.did }))
  visit_inside v m ty d substs s new known fields parts most =
      let less = missing-cons dids s.unique d.did new known in
      visit_nested (λ x. x.unique) Raised (λ x. inl refl) Raised-trans Any (λ a b x y. tt) dids v m
        (all_field_tys tcx d substs) (super_tys ty) s (record s { unique = d.did ∷ s.unique })
        (λ s'. record s' { unique = remove s'.unique d.did })
        (λ s' k. (Grows-inside s.unique s'.unique d.did new k.0, k.1))
        (fields (missing dids (d.did ∷ s.unique)) (omega arith)) parts (most, tt) tt

  visit_owner_unit-Returns :
      (v : Visit Ty OwnerPropagation) (m : ℕ) (ty : Ty) (d : AdtDef) (substs : List (GenericArg Ty))
      (s : OwnerPropagation)
      → contains s.unique d.did ≡ false
      → contains dids d.did ≡ true
      → ((m' : ℕ) → m' < m → All (Done v m') (fields_of tcx (adt d substs)))
      → All (Done v m) (super_tys ty)
      → missing dids s.unique ≤ m
      → (units : List OwnerUnit)
      → Returns
          (λ r. Advanced s r.1)
          (visit_owner_unit tcx owner v ty d substs units (record s { unique = d.did ∷ s.unique }))
  unfolding visit_owner_unit
  visit_owner_unit-Returns v m ty d substs s new known fields parts most [] =
      (Grows-cons s.unique d.did, inl refl)
  visit_owner_unit-Returns v m ty d substs s new known fields parts most ((owned, _) ∷ _) =
      (Grows-cons s.unique d.did, inr refl)
  visit_owner_unit-Returns v m ty d substs s new known fields parts most ((unowned, _) ∷ _) =
      visit_inside v m ty d substs s new known fields parts most
  visit_owner_unit-Returns v m ty d substs s new known fields parts most ((uninit, _) ∷ _) =
      visit_inside v m ty d substs s new known fields parts most

  visit_owner_kind-Returns :
      ((d : DefId) → contains dids d ≡ true → HasUnits owner d)
      → (v : Visit Ty OwnerPropagation) (m : ℕ) (ty : Ty) (k : TyKind Ty)
      → All (λ d. contains dids d ≡ true) (dids_of k)
      → ((m' : ℕ) → m' < m → All (Done v m') (fields_of tcx k))
      → All (Done v m) (super_tys ty)
      → (s : OwnerPropagation) → (missing dids s.unique ≤ m) × Any s
      → Returns (λ r. Advanced s r.1) (visit_owner_kind tcx owner v ty k s)
  unfolding visit_owner_kind
  visit_owner_kind-Returns have v m ty (adt d substs) known fields parts s h =
      elim (Bool-cases (contains s.unique d.did)) [
        | inl met ↦ rw met (Advanced-refl s)
        | inr new ↦ elim (Bool-cases (is_enum d.adt_kind)) [
          | inl e ↦ rw (new, e) (Grows-cons s.unique d.did, inl refl)
          | inr e ↦
              rw (new, e)
                (unwrap-Returns (owner d.did) (λ r. Advanced s r.1) _ (have d.did known.0)
                  (λ units _.
                    visit_owner_unit-Returns v m ty d substs s new known.0 fields parts h.0 units))
        ]
      ]
  visit_owner_kind-Returns have v m ty (array t size) known fields parts s h =
      visit_parts (λ x. x.unique) Raised (λ x. inl refl) Raised-trans Any (λ a b x y. tt) dids v m
        (super_tys ty) s parts h
  visit_owner_kind-Returns have v m ty (tuple ts) known fields parts s h =
      visit_parts (λ x. x.unique) Raised (λ x. inl refl) Raised-trans Any (λ a b x y. tt) dids v m
        (super_tys ty) s parts h
  visit_owner_kind-Returns have v m ty k known fields parts s h = Advanced-refl s

  -- Where every ADT of the crate is recorded and every recorded one has units, a visit of
  -- `OwnerPropagation` returns, also on recursive types: the fuel is above the definitions that are
  -- not in `unique`, times the levels of types. What is in `unique` stays, and the ownership stays or
  -- becomes `Owned`.
  pub visit_owner-Returns :
      (shape : Shape tcx)
      → ((t : Ty) → All (λ d. contains dids d ≡ true) (dids_of (kind t)))
      → ((d : DefId) → contains dids d ≡ true → HasUnits owner d)
      → (fuel : ℕ) (t : Ty) (s : OwnerPropagation)
      → missing dids s.unique * suc shape.top + shape.rank t < fuel
      → Returns (λ r. Advanced s r.1) (visit_owner tcx owner fuel t s)
  unfolding visit_owner
  visit_owner-Returns shape known have fuel t s h =
      Returning-Step (λ x. x.unique) Raised (λ x. inl refl) Raised-trans Any (λ a b x y. tt) dids
        tcx shape Any (λ u _. All-true (fields_of tcx (kind u))) (λ u _. All-true (super_tys u))
        (visit_owner tcx owner)
        (λ f m u _ _ fields parts s' k.
          visit_owner_kind-Returns have (visit_owner tcx owner f) m u (kind u) (known u) fields
            parts s' k)
        fuel (missing dids s.unique) t h tt s (omega arith, tt)

  -- The loop over the fields of a variant.
  pub visit_owner_fields-Returns :
      (shape : Shape tcx)
      → ((t : Ty) → All (λ d. contains dids d ≡ true) (dids_of (kind t)))
      → ((d : DefId) → contains dids d ≡ true → HasUnits owner d)
      → (fuel : ℕ) (ts : List Ty) (s : OwnerPropagation)
      → length dids * suc shape.top + shape.top < fuel
      → Returns (Advanced s) (visit_each (visit_owner tcx owner fuel) ts s)
  visit_owner_fields-Returns shape known have fuel ts s h =
      visit_fields (λ x. x.unique) Raised (λ x. inl refl) Raised-trans Any (λ a b x y. tt) dids
        (visit_owner tcx owner fuel) (length dids) ts s
        (All-map
          (λ u _ s' k. visit_owner-Returns shape known have fuel u s' (
            fuel-start (missing dids s'.unique) (length dids) shape.top (shape.rank u) fuel k.0
              (shape.rank_top u) h))
          ts (All-true ts))
        (missing-le-length dids s.unique, tt)
