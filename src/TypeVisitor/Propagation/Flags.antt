-- ===== src/TypeVisitor/Propagation/Flags.antt =====
-- The visits of `RawGenericPropagation` return, also on recursive types, and clear no flag.
use rul_checker.Prelude.{
  ℕ, suc, ◌+◌, ◌*◌, ◌<◌, ◌≤◌, ◌≡◌, ◌∙◌, Bool, true, false, List, [], ◌∷◌, arith, All, All-map,
  All-zip, Bool-cases, inl, inr, length, not, ◌&&◌,
}
use rul_checker.Run.{◌>>=◌, Returns, >>=-Returns, Returns-map, unwrap-Returns}
use rul_checker.Rustc.{Tcx, TyKind, tuple, adt, array, DefId, AdtDef, GenericArg, is_enum}
use rul_checker.Rustc.Shape.{Shape, fields_of, dids_of, arg_tys}
use rul_checker.Ownership.{AdtOwner, OwnerUnit}
use rul_checker.TypeVisitor.{Visit, visit_all, visit_each, contains, remove, all_field_tys}
use rul_checker.TypeVisitor.RawGeneric.{Parameters, is_empty, visit_subst}
use rul_checker.TypeVisitor.RawGeneric.Bounded.{IsBelow, visit_subst-Returns}
use rul_checker.TypeVisitor.Propagation.{
  RawGenericPropagation, mark_flags, params_of_args, visit_prop_unit, visit_prop_args,
  visit_prop_kind, visit_prop,
}
use rul_checker.TypeVisitor.Propagation.Owner.{HasUnits}
use rul_checker.TypeVisitor.Propagation.Marks.{
  Implied, Implied-refl, Implied-trans, Implied-length, AllBelow, mark_flags-Returns,
  params_of_args-Returns,
}
use rul_checker.TypeVisitor.Total.Unique.{
  Grows, Grows-refl, Grows-cons, Grows-inside, missing, missing-cons, missing-le-length,
}
use rul_checker.TypeVisitor.Total.Nested.{
  Returning, visit_parts, visit_nested, visit_fields, fuel-start, Returning-Step,
}

abbrev Kept : RawGenericPropagation → RawGenericPropagation → Type 0
Kept a b = Implied a.flags b.flags

Kept-trans : (a b c : RawGenericPropagation) → Kept a b → Kept b c → Kept a c
Kept-trans a b c = Implied-trans a.flags b.flags c.flags

abbrev pub Marked : RawGenericPropagation → RawGenericPropagation → Type 0
Marked a b = Grows a.unique b.unique × Kept a b

Marked-refl : (s : RawGenericPropagation) → Marked s s
Marked-refl s = (Grows-refl s.unique, Implied-refl s.flags)

-- The number of flags.
abbrev HasLength : ℕ → RawGenericPropagation → Type 0
HasLength n s = length s.flags ≡ n

HasLength-Kept : (n : ℕ) (a b : RawGenericPropagation) → Kept a b → HasLength n a → HasLength n b
HasLength-Kept n a b h e = Implied-length a.flags b.flags h ∙ e

module _ (tcx : Tcx) (owner : AdtOwner) (dids : List DefId) (n : ℕ) where
  open tcx use {Ty, kind, super_tys}

  abbrev Done : Visit Ty RawGenericPropagation → ℕ → Ty → Type 0
  Done v =
      Returning (λ s. s.unique) Kept (λ s. Implied-refl s.flags) Kept-trans (HasLength n)
        (HasLength-Kept n) dids v

  -- The state once the flags of the unit are marked.
  visit_inside :
      (v : Visit Ty RawGenericPropagation) (m : ℕ) (ty : Ty) (d : AdtDef)
      (substs : List (GenericArg Ty)) (s : RawGenericPropagation) (fs : List Bool)
      → contains s.unique d.did ≡ false
      → contains dids d.did ≡ true
      → ((m' : ℕ) → m' < m → All (Done v m') (fields_of tcx (adt d substs)))
      → All (Done v m) (super_tys ty)
      → (missing dids s.unique ≤ m) × HasLength n s
      → Implied s.flags fs
      → let inside : RawGenericPropagation = record { flags = fs; unique = d.did ∷ s.unique } in
        Returns
          (λ r. Marked s r.1)
          (visit_each v (all_field_tys tcx d substs) inside >>= λ s'.
            visit_all v (super_tys ty) (record s' { unique = remove s'.unique d.did }))
  visit_inside v m ty d substs s fs new known fields parts h marked =
      let less = missing-cons dids s.unique d.did new known in
      let most = h.0 in
      visit_nested (λ x. x.unique) Kept (λ x. Implied-refl x.flags) Kept-trans (HasLength n)
        (HasLength-Kept n) dids v m (all_field_tys tcx d substs) (super_tys ty) s
        (record { flags = fs; unique = d.did ∷ s.unique })
        (λ s'. record s' { unique = remove s'.unique d.did })
        (λ s' k. (
          Grows-inside s.unique s'.unique d.did new k.0,
          Implied-trans s.flags fs s'.flags marked k.1,
        ))
        (fields (missing dids (d.did ∷ s.unique)) (omega arith)) parts h
        (Implied-length s.flags fs marked ∙ h.1)

  visit_prop_args-Returns :
      ((d : DefId) → contains dids d ≡ true → HasUnits owner d)
      → (v : Visit Ty RawGenericPropagation) (m : ℕ) (ty : Ty) (d : AdtDef)
        (substs : List (GenericArg Ty)) (s : RawGenericPropagation) (ps : List (ℕ × Parameters))
      → AllBelow n ps
      → contains s.unique d.did ≡ false
      → contains dids d.did ≡ true
      → ((m' : ℕ) → m' < m → All (Done v m') (fields_of tcx (adt d substs)))
      → All (Done v m) (super_tys ty)
      → (missing dids s.unique ≤ m) × HasLength n s
      → Returns
          (λ r. Marked s r.1)
          (visit_prop_args tcx owner v ty d substs ps (record s { unique = d.did ∷ s.unique }))
  unfolding visit_prop_args
  visit_prop_args-Returns have v m ty d substs s [] below new known fields parts h =
      (Grows-cons s.unique d.did, Implied-refl s.flags)
  visit_prop_args-Returns have v m ty d substs s (p ∷ ps) below new known fields parts h =
      unwrap-Returns (owner d.did) (λ r. Marked s r.1) _ (have d.did known)
        (λ units _. unit_case units)
    where
      unit_case :
          (units : List OwnerUnit)
          → Returns
              (λ r. Marked s r.1)
              (visit_prop_unit tcx owner v ty d substs
                (p ∷ ps)
                units
                (record s { unique = d.did ∷ s.unique }))
      unit_case [] = (Grows-cons s.unique d.did, Implied-refl s.flags)
      unit_case (unit ∷ _) =
          >>=-Returns (Implied s.flags) (λ r. Marked s r.1) (mark_flags (p ∷ ps) 0 unit.1 s.flags) _
            (mark_flags-Returns (p ∷ ps) n 0 unit.1 s.flags below h.1)
            (λ fs marked. visit_inside v m ty d substs s fs new known fields parts h marked)

  abbrev Good : Visit Ty Parameters → Ty → Type 0
  Good w t = Returns (λ r. IsBelow n r.1) (w t [])

  visit_prop_kind-Returns :
      ((d : DefId) → contains dids d ≡ true → HasUnits owner d)
      → (source_enum : Bool) (w : Visit Ty Parameters) (v : Visit Ty RawGenericPropagation) (m : ℕ)
        (ty : Ty) (k : TyKind Ty)
      → All (Good w) (arg_tys k)
      → All (λ d. contains dids d ≡ true) (dids_of k)
      → ((m' : ℕ) → m' < m → All (Done v m') (fields_of tcx k))
      → All (Done v m) (super_tys ty)
      → (s : RawGenericPropagation) → (missing dids s.unique ≤ m) × HasLength n s
      → Returns (λ r. Marked s r.1) (visit_prop_kind tcx owner source_enum w v ty k s)
  unfolding visit_prop_kind
  visit_prop_kind-Returns have source_enum w v m ty (adt d substs) args known fields parts s h =
      elim (Bool-cases (is_empty substs)) [
        | inl none_given ↦ rw none_given (Marked-refl s)
        | inr some_given ↦ elim (Bool-cases (not source_enum && is_enum d.adt_kind)) [
          | inl e ↦ rw (some_given, e) (Marked-refl s)
          | inr e ↦ elim (Bool-cases (contains s.unique d.did)) [
            | inl met ↦ rw (some_given, e, met) (Marked-refl s)
            | inr new ↦
                rw (some_given, e, new)
                  (>>=-Returns (AllBelow n) (λ r. Marked s r.1) (params_of_args w 0 substs) _
                    (params_of_args-Returns w n 0 substs args)
                    (λ ps below.
                      visit_prop_args-Returns have v m ty d substs s ps below new known.0 fields
                        parts h))
          ]
        ]
      ]
  visit_prop_kind-Returns have source_enum w v m ty (array t size) args known fields parts s h =
      visit_parts (λ x. x.unique) Kept (λ x. Implied-refl x.flags) Kept-trans (HasLength n)
        (HasLength-Kept n) dids v m (super_tys ty) s parts h
  visit_prop_kind-Returns have source_enum w v m ty (tuple ts) args known fields parts s h =
      visit_parts (λ x. x.unique) Kept (λ x. Implied-refl x.flags) Kept-trans (HasLength n)
        (HasLength-Kept n) dids v m (super_tys ty) s parts h
  visit_prop_kind-Returns have source_enum w v m ty k args known fields parts s h = Marked-refl s

  -- Where every ADT of the crate is recorded and every recorded one has units, a visit of
  -- `RawGenericPropagation` with as many flags as the type's parameters need returns, also on
  -- recursive types: no write is out of bounds, and the fuel is above the definitions that are not in
  -- `unique`, times the levels of types. There are as many flags after as before, none is cleared, and
  -- what is in `unique` stays.
  pub visit_prop-Returns :
      (shape : Shape tcx)
      → ((t : Ty) → All (λ d. contains dids d ≡ true) (dids_of (kind t)))
      → ((d : DefId) → contains dids d ≡ true → HasUnits owner d)
      → (source_enum : Bool) (fuel : ℕ) (t : Ty) (s : RawGenericPropagation)
      → missing dids s.unique * suc shape.top + shape.rank t < fuel
      → shape.width t ≤ n
      → length s.flags ≡ n
      → Returns (λ r. Marked s r.1) (visit_prop tcx owner source_enum fuel t s)
  unfolding visit_prop
  visit_prop-Returns shape known have source_enum fuel t s h w e =
      Returning-Step (λ x. x.unique) Kept (λ x. Implied-refl x.flags) Kept-trans (HasLength n)
        (HasLength-Kept n) dids tcx shape (λ u. shape.width u ≤ n)
        (λ u le. All-map (λ u' k. omega arith) (fields_of tcx (kind u)) (shape.width_fields u))
        (λ u le. All-map (λ u' k. omega arith) (super_tys u) (shape.width_super u))
        (visit_prop tcx owner source_enum)
        (λ f m u below le fields parts s' k.
          visit_prop_kind-Returns have source_enum (visit_subst tcx f)
            (visit_prop tcx owner source_enum f) m u (kind u)
            (All-zip
              (λ u' r' w'.
                Returns-map (visit_subst tcx f u' [])
                  (visit_subst-Returns tcx shape n f u' (omega arith) (omega arith) [] tt)
                  (λ r k'. k' tt))
              (arg_tys (kind u)) (shape.rank_args u) (shape.width_args u))
            (known u) fields parts s' k)
        fuel (missing dids s.unique) t h w s (omega arith, e)

  -- The loop over the fields of a variant.
  pub visit_prop_fields-Returns :
      (shape : Shape tcx)
      → ((t : Ty) → All (λ d. contains dids d ≡ true) (dids_of (kind t)))
      → ((d : DefId) → contains dids d ≡ true → HasUnits owner d)
      → (source_enum : Bool) (fuel : ℕ) (ts : List Ty) (s : RawGenericPropagation)
      → length dids * suc shape.top + shape.top < fuel
      → All (λ u. shape.width u ≤ n) ts
      → length s.flags ≡ n
      → Returns (Marked s) (visit_each (visit_prop tcx owner source_enum fuel) ts s)
  visit_prop_fields-Returns shape known have source_enum fuel ts s h w e =
      visit_fields (λ x. x.unique) Kept (λ x. Implied-refl x.flags) Kept-trans (HasLength n)
        (HasLength-Kept n) dids (visit_prop tcx owner source_enum fuel) (length dids) ts s
        (All-map
          (λ u le s' k.
            visit_prop-Returns shape known have source_enum fuel u s'
              (fuel-start (missing dids s'.unique) (length dids) shape.top (shape.rank u) fuel k.0
                (shape.rank_top u) h)
              le k.1)
          ts w)
        (missing-le-length dids s.unique, e)
