-- ===== src/TypeVisitor/Phases/Steps.antt =====
-- Each pass over one type returns, and writes well-formed units for it or nothing.
use rul_checker.Prelude.{
  ℕ, suc, ◌+◌, ◌*◌, ◌<◌, ◌≤◌, ◌≡◌, refl, sym, true, List, [], ◌∷◌, some, map, arith, All, length,
  length-map, Bool-cases, ◌⊎◌, inl, inr,
}
use rul_checker.Run.{ret, index, Returns, >>=-Returns, Returns-map, index-Returns}
use rul_checker.Rustc.{
  Tcx, TyKind, adt, DefId, AdtDef, VariantDef, GenericArg, type_arg, lifetime, const_arg, is_struct,
  is_enum,
}
use rul_checker.Rustc.Shape.{Shape, AllVariants, IsDefinition, dids_of}
use rul_checker.Ownership.{owned, AdtOwner, OwnerUnit}
use rul_checker.TypeVisitor.{contains, all_field_tys}
use rul_checker.TypeVisitor.DefaultOwnership.Decided.{owned-ne, unowned-ne}
use rul_checker.TypeVisitor.RawGeneric.{contains_param, visit_subst}
use rul_checker.TypeVisitor.RawGeneric.Params.{length-flags_from}
use rul_checker.TypeVisitor.RawGeneric.Bounded.{visit_subst-Returns}
use rul_checker.TypeVisitor.FindPtr.{new_find_ptr, visit_ptr}
use rul_checker.TypeVisitor.FindPtr.Total.{visit_ptr-Returns}
use rul_checker.TypeVisitor.Propagation.Owner.{HasUnits}
use rul_checker.TypeVisitor.Total.Unique.{missing, missing-le-length}
use rul_checker.TypeVisitor.Total.Nested.{fuel-start}
use rul_checker.TypeVisitor.Phases.{
  Search, owns, quits, goes_on, insert_owner, extract_raw_generic, extract_raw_generic_prop,
  has_ptr, phantom_args, scan_args, scan_fields, settle, extract_phantom_unit, extract_owner_prop,
}
use rul_checker.TypeVisitor.Phases.Settled.{IsUnit, AreUnits}
use rul_checker.TypeVisitor.Phases.Units.{
  structural_unit, raw_units-eq, prop_units-Returns, owner_units-Returns,
}

-- The pass wrote well-formed units for the type, or changed nothing.
abbrev pub Writes : {T : Type 0} → TyKind T → AdtOwner → DefId → AdtOwner → Type 0
Writes k owner did o =
    (units : List OwnerUnit) × (o ≡ insert_owner owner did units) × AreUnits k units

abbrev pub UnitsAt : {T : Type 0} → TyKind T → AdtOwner → DefId → Type 0
UnitsAt k owner did = (units : List OwnerUnit) × (owner did ≡ some units) × AreUnits k units

module _ (tcx : Tcx) (shape : Shape tcx) (fuel : ℕ) where
  open tcx use {Ty, kind, type_of}

  rank_below : shape.top < fuel → (u : Ty) → shape.rank u < fuel
  rank_below h u = let le = shape.rank_top u in omega arith

  AreUnits-structural :
      (d : AdtDef) (substs : List (GenericArg Ty))
      → AreUnits (adt d substs) (map (structural_unit tcx shape fuel substs) d.variants)
  AreUnits-structural d substs = (length-map d.variants _, all d.variants)
    where
      all :
          (vs : List VariantDef)
          → All (IsUnit (length substs)) (map (structural_unit tcx shape fuel substs) vs)
      all [] = tt
      all (v ∷ vs) = ((unowned-ne, length-flags_from _ 0 (length substs)), all vs)

  pub extract_raw_generic-Returns :
      (k : TyKind Ty) (did : DefId) (owner : AdtOwner)
      → k ≡ kind (type_of did)
      → IsDefinition tcx shape k
      → shape.top < fuel
      → Returns (Writes k owner did) (extract_raw_generic tcx fuel did owner)
  unfolding extract_raw_generic
  extract_raw_generic-Returns (adt d substs) did owner e def h =
      rw (sym e, raw_units-eq tcx shape fuel substs d.variants h def.0)
        (map (structural_unit tcx shape fuel substs) d.variants, refl, AreUnits-structural d substs)
  extract_raw_generic-Returns k did owner e def h = absurd def

  module _ (dids : List DefId)
      (known : (t : Ty) → All (λ d. contains dids d ≡ true) (dids_of (kind t)))
      (enough : length dids * suc shape.top + shape.top < fuel) where
    pub extract_raw_generic_prop-Returns :
        (k : TyKind Ty) (did : DefId) (owner : AdtOwner)
        → k ≡ kind (type_of did)
        → IsDefinition tcx shape k
        → ((d : DefId) → contains dids d ≡ true → HasUnits owner d)
        → UnitsAt k owner did
        → Returns (Writes k owner did) (extract_raw_generic_prop tcx fuel did owner)
    unfolding extract_raw_generic_prop
    extract_raw_generic_prop-Returns (adt d substs) did owner e def have at =
        rw (sym e, at.1)
          (>>=-Returns (AreUnits (adt d substs)) (Writes (adt d substs) owner did) _ _
            (prop_units-Returns tcx shape fuel dids known enough owner have (is_enum d.adt_kind)
              substs (length d.variants) 0 d.variants at.0 def.0 (omega arith) at.2)
            (λ units good. (units, refl, good)))
    extract_raw_generic_prop-Returns k did owner e def have at = absurd def

    pub extract_owner_prop-Returns :
        (k : TyKind Ty) (did : DefId) (owner : AdtOwner)
        → k ≡ kind (type_of did)
        → IsDefinition tcx shape k
        → ((d : DefId) → contains dids d ≡ true → HasUnits owner d)
        → UnitsAt k owner did
        → Returns (Writes k owner did) (extract_owner_prop tcx fuel did owner)
    unfolding extract_owner_prop
    extract_owner_prop-Returns (adt d substs) did owner e def have at =
        rw (sym e, at.1)
          (>>=-Returns (AreUnits (adt d substs)) (Writes (adt d substs) owner did) _ _
            (owner_units-Returns tcx shape fuel dids known enough owner have substs
              (length d.variants) 0 d.variants at.0 (omega arith) at.2)
            (λ units good. (units, refl, good)))
    extract_owner_prop-Returns k did owner e def have at = absurd def

    abbrev Any : {A : Type 0} → A → Type 0
    Any a = Unit

    has_ptr-Returns : (ts : List Ty) → Returns Any (has_ptr tcx fuel ts)
    unfolding has_ptr
    has_ptr-Returns [] = tt
    has_ptr-Returns (t ∷ ts) =
        >>=-Returns (λ r. Unit) Any (visit_ptr tcx fuel t new_find_ptr) _
          (Returns-map (visit_ptr tcx fuel t new_find_ptr)
            (visit_ptr-Returns tcx dids shape known fuel t new_find_ptr (
              fuel-start (missing dids []) (length dids) shape.top (shape.rank t) fuel
                (missing-le-length dids []) (shape.rank_top t) enough))
            (λ r _. tt))
          (λ r _. elim (Bool-cases r.1.ptr) [ inl e ↦ rw e tt | inr e ↦ rw e (has_ptr-Returns ts) ])

    scan_args-Returns :
        (tys : List Ty) (args : List (GenericArg Ty)) → Returns Any (scan_args tcx fuel tys args)
    unfolding scan_args
    scan_args-Returns tys [] = tt
    scan_args-Returns tys (lifetime region ∷ args) = tt
    scan_args-Returns tys (const_arg ct ∷ args) = tt
    scan_args-Returns tys (type_arg t ∷ args) =
        let top = shape.rank_top t in
        >>=-Returns (λ r. Unit) Any (visit_subst tcx fuel t []) _
          (Returns-map (visit_subst tcx fuel t [])
            (visit_subst-Returns tcx shape (shape.width t) fuel t (omega arith) (omega arith) [] tt)
            (λ r _. tt))
          (λ r _. elim (Bool-cases (contains_param r.1)) [
            | inl e ↦
                rw e
                  (>>=-Returns Any Any (has_ptr tcx fuel tys) _ (has_ptr-Returns tys) (λ b _. tt))
            | inr e ↦ rw e (scan_args-Returns tys args)
          ])

    scan_fields-Returns : (tys ts : List Ty) → Returns Any (scan_fields tcx fuel tys ts)
    unfolding scan_fields
    scan_fields-Returns tys [] = tt
    scan_fields-Returns tys (t ∷ ts) =
        >>=-Returns Any Any (scan_args tcx fuel tys (phantom_args tcx fuel (kind t))) _
          (scan_args-Returns tys (phantom_args tcx fuel (kind t)))
          (λ o _. rest o (scan_fields-Returns tys ts))
      where
        rest :
            (o : Search)
            → Returns Any (scan_fields tcx fuel tys ts)
            → Returns Any (elim o [
              | owns ↦ ret owns
              | quits ↦ ret quits
              | goes_on ↦ scan_fields tcx fuel tys ts
            ])
        rest owns h = tt
        rest quits h = tt
        rest goes_on h = h

    settle-Writes :
        (k : TyKind Ty) (o : Search) (owner : AdtOwner) (did : DefId) (res : OwnerUnit)
        → AreUnits k ((owned, res.1) ∷ [])
        → Writes k owner did (settle tcx fuel o owner did res)
          ⊎ (settle tcx fuel o owner did res ≡ owner)
    settle-Writes k owns owner did res h = inl ((owned, res.1) ∷ [], refl, h)
    settle-Writes k quits owner did res h = inr refl
    settle-Writes k goes_on owner did res h = inr refl

    pub extract_phantom_unit-Returns :
        (k : TyKind Ty) (did : DefId) (owner : AdtOwner)
        → k ≡ kind (type_of did)
        → IsDefinition tcx shape k
        → UnitsAt k owner did
        → Returns
            (λ o. Writes k owner did o ⊎ (o ≡ owner))
            (extract_phantom_unit tcx fuel did owner)
    unfolding extract_phantom_unit
    extract_phantom_unit-Returns (adt d substs) did owner e def at =
        elim (Bool-cases (is_struct d.adt_kind)) [
          | inr other ↦ rw (sym e, other) (inr refl)
          | inl struct ↦
              (let len = at.2.0 in
                let one = def.2 struct in
                let tys = all_field_tys tcx d substs in
                let goal : AdtOwner → Type 0 =
                  λ o. Writes (adt d substs) owner did o ⊎ (o ≡ owner) in
                rw (sym e, struct, at.1)
                  (>>=-Returns (IsUnit (length substs)) goal (index at.0 0) _
                    (index-Returns (IsUnit (length substs)) at.0 0 at.2.1 (omega arith))
                    (λ res unit.
                      >>=-Returns Any goal (scan_fields tcx fuel tys tys) _
                        (scan_fields-Returns tys tys)
                        (λ o _.
                          settle-Writes (adt d substs) o owner did res
                            (sym one, ((owned-ne, unit.1), tt))))))
        ]
    extract_phantom_unit-Returns k did owner e def at = absurd def

  -- For a type whose definition is an ADT, the first pass writes for each variant an unowned unit
  -- whose flag at the index of a generic parameter says whether the parameter is among those that
  -- the variant's fields store raw: as a whole field, or in an array or a tuple. The fuel is above
  -- the nesting of types, and the fields mention no other parameters than the type's.
  pub extract_raw_generic-eq :
      (did : DefId) (owner : AdtOwner) (d : AdtDef) (substs : List (GenericArg Ty))
      → kind (type_of did) ≡ adt d substs
      → AllVariants tcx (λ u. shape.width u ≤ length substs) substs d.variants
      → shape.top < fuel
      → extract_raw_generic tcx fuel did owner
        ≡ ret (insert_owner owner did (map (structural_unit tcx shape fuel substs) d.variants))
  unfolding extract_raw_generic
  extract_raw_generic-eq did owner d substs e w h =
      rw (e, raw_units-eq tcx shape fuel substs d.variants h w)
