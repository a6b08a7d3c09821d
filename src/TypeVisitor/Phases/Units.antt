-- ===== src/TypeVisitor/Phases/Units.antt =====
-- The loops over the variants of one type return, with well-formed units.
use rul_checker.Prelude.{
  ℕ, suc, ◌+◌, ◌*◌, ◌<◌, ◌≤◌, ◌≡◌, ◌≢◌, refl, ◌∙◌, sym, Bool, true, List, [], ◌∷◌, map, arith, All,
  All-set, length, length-set, set, ◌⊎◌, inl, inr,
}
use rul_checker.Run.{ret, Returns, >>=-Returns, index, index-Returns}
use rul_checker.Rustc.{Tcx, DefId, VariantDef, GenericArg}
use rul_checker.Rustc.Shape.{Shape, AllVariants, dids_of}
use rul_checker.Ownership.{owned, unowned, uninit, RawTypeOwner, AdtOwner, OwnerUnit}
use rul_checker.TypeVisitor.{contains, visit_each, field_tys}
use rul_checker.TypeVisitor.DefaultOwnership.Decided.{owned-ne, unowned-ne}
use rul_checker.TypeVisitor.RawGeneric.Params.{
  flags_from, collect, raw_params, visit_each-flags_from,
}
use rul_checker.TypeVisitor.Propagation.{visit_prop, visit_owner}
use rul_checker.TypeVisitor.Propagation.Owner.{HasUnits, Advanced, visit_owner_fields-Returns}
use rul_checker.TypeVisitor.Propagation.Marks.{Implied-length}
use rul_checker.TypeVisitor.Propagation.Flags.{Marked, visit_prop_fields-Returns}
use rul_checker.TypeVisitor.Phases.{raw_units, prop_units, owner_units}
use rul_checker.TypeVisitor.Phases.Settled.{IsUnit}

module _ (tcx : Tcx) (shape : Shape tcx) (fuel : ℕ) where
  open tcx use {Ty, kind}

  -- The units that a structural reading of the fields gives.
  abbrev pub structural_unit : List (GenericArg Ty) → VariantDef → OwnerUnit
  structural_unit substs v = (
    unowned,
    flags_from (contains (collect (raw_params tcx fuel) (field_tys tcx v.fields substs))) 0
        (length substs),
  )

  pub raw_units-eq :
      (substs : List (GenericArg Ty)) (variants : List VariantDef)
      → shape.top < fuel
      → AllVariants tcx (λ u. shape.width u ≤ length substs) substs variants
      → raw_units tcx fuel substs variants ≡ ret (map (structural_unit substs) variants)
  unfolding raw_units
  raw_units-eq substs [] h w = refl
  raw_units-eq substs (v ∷ variants) h w = rw (
    visit_each-flags_from tcx shape (length substs) fuel (field_tys tcx v.fields substs) h w.0,
    raw_units-eq substs variants h w.1,
  )

  module _ (dids : List DefId)
      (known : (t : Ty) → All (λ d. contains dids d ≡ true) (dids_of (kind t)))
      (enough : length dids * suc shape.top + shape.top < fuel) (owner : AdtOwner)
      (have : (d : DefId) → contains dids d ≡ true → HasUnits owner d) where
    -- The units so far: of all variants, each well formed.
    abbrev pub Loop : ℕ → ℕ → List OwnerUnit → Type 0
    Loop n total units = (length units ≡ total) × All (IsUnit n) units

    pub prop_units-Returns :
        (source_enum : Bool) (substs : List (GenericArg Ty)) (total i : ℕ)
        (variants : List VariantDef) (v_res : List OwnerUnit)
        → AllVariants tcx (λ u. shape.width u ≤ length substs) substs variants
        → i + length variants ≡ total
        → Loop (length substs) total v_res
        → Returns
            (Loop (length substs) total)
            (prop_units tcx fuel owner source_enum substs i variants v_res)
    unfolding prop_units
    prop_units-Returns source_enum substs total i [] v_res w e h = h
    prop_units-Returns source_enum substs total i (v ∷ variants) v_res w e h =
        let len = h.0 in
        >>=-Returns (IsUnit (length substs)) _ (index v_res i) _
          (index-Returns (IsUnit (length substs)) v_res i h.1 (omega arith))
          (λ res unit.
            >>=-Returns (Marked (record { flags = res.1; unique = [] })) _
              (visit_each (visit_prop tcx owner source_enum fuel) (field_tys tcx v.fields substs) _)
              _
              (visit_prop_fields-Returns tcx owner dids (length substs) shape known have source_enum
                fuel (field_tys tcx v.fields substs) _ enough w.0 unit.1)
              (λ s marked.
                prop_units-Returns source_enum substs total (suc i) variants
                  (set v_res i (unowned, s.flags)) w.1 (omega arith)
                  (
                    length-set v_res i (unowned, s.flags) ∙ len,
                    All-set (IsUnit (length substs)) v_res i (unowned, s.flags) h.1
                        (unowned-ne, Implied-length res.1 s.flags marked.1 ∙ unit.1),
                  )))

    raised-ne : (a b : RawTypeOwner) → a ≢ uninit → ((b ≡ a) ⊎ (b ≡ owned)) → b ≢ uninit
    raised-ne a b h (inl e) k = h (sym e ∙ k)
    raised-ne a b h (inr e) k = owned-ne (sym e ∙ k)

    pub owner_units-Returns :
        (substs : List (GenericArg Ty)) (total i : ℕ) (variants : List VariantDef)
        (v_res : List OwnerUnit)
        → i + length variants ≡ total
        → Loop (length substs) total v_res
        → Returns (Loop (length substs) total) (owner_units tcx fuel owner substs i variants v_res)
    unfolding owner_units
    owner_units-Returns substs total i [] v_res e h = h
    owner_units-Returns substs total i (v ∷ variants) v_res e h =
        let len = h.0 in
        >>=-Returns (IsUnit (length substs)) _ (index v_res i) _
          (index-Returns (IsUnit (length substs)) v_res i h.1 (omega arith))
          (λ res unit.
            >>=-Returns (Advanced (record { ownership = res.0; unique = [] })) _
              (visit_each (visit_owner tcx owner fuel) (field_tys tcx v.fields substs) _) _
              (visit_owner_fields-Returns tcx owner dids shape known have fuel
                (field_tys tcx v.fields substs) _ enough)
              (λ s raised.
                owner_units-Returns substs total (suc i) variants (set v_res i (s.ownership, res.1))
                  (omega arith)
                  (
                    length-set v_res i (s.ownership, res.1) ∙ len,
                    All-set (IsUnit (length substs)) v_res i (s.ownership, res.1) h.1
                        (raised-ne res.0 s.ownership unit.0 raised.1, unit.1),
                  )))
