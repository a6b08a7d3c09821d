-- ===== src/TypeVisitor/Phases/Settled.antt =====
-- When the units of a type are well formed, and that writing units keeps what is well formed.
use rul_checker.Prelude.{
  ℕ, ◌≡◌, ◌≢◌, refl, subst, sym, true, List, some, length, All, Bool-cases, inl, inr, ◌==◌, ==_iff,
}
use rul_checker.Rustc.{Tcx, TyKind, adt, DefId}
use rul_checker.Ownership.{uninit, AdtOwner, OwnerUnit}
use rul_checker.TypeVisitor.Phases.{insert_owner}

-- The ownership is decided, and there is a flag for each generic parameter.
abbrev pub IsUnit : ℕ → OwnerUnit → Type 0
IsUnit n u = (u.0 ≢ uninit) × (length u.1 ≡ n)

-- One unit for each variant.
abbrev pub AreUnits : {T : Type 0} → TyKind T → List OwnerUnit → Type 0
AreUnits (adt d substs) units =
    (length units ≡ length d.variants) × All (IsUnit (length substs)) units
AreUnits _ units = ⊥

module _ (tcx : Tcx) where
  abbrev pub Settled : AdtOwner → DefId → Type 0
  Settled owner did =
      (units : List OwnerUnit) × (owner did ≡ some units)
      × AreUnits (tcx.kind (tcx.type_of did)) units

  -- What a pass may do to the map: what was well formed stays so.
  abbrev pub Keeps : AdtOwner → AdtOwner → Type 0
  Keeps a b = (d : DefId) → Settled a d → Settled b d

  pub Settled-insert_self :
      (owner : AdtOwner) (did : DefId) (units : List OwnerUnit)
      → AreUnits (tcx.kind (tcx.type_of did)) units
      → Settled (insert_owner owner did units) did
  Settled-insert_self owner did units h =
      let self : (did == did) ≡ true = (==_iff did did).1 refl in (units, rw self refl, h)

  pub Keeps-insert :
      (owner : AdtOwner) (did : DefId) (units : List OwnerUnit)
      → AreUnits (tcx.kind (tcx.type_of did)) units
      → Keeps owner (insert_owner owner did units)
  Keeps-insert owner did units h d s = elim (Bool-cases (d == did)) [
    | inl e ↦
        subst (Settled (insert_owner owner did units)) (sym ((==_iff d did).0 e))
          (Settled-insert_self owner did units h)
    | inr e ↦ (s.0, rw e s.1, s.2)
  ]
