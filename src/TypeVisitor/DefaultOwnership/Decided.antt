-- ===== src/TypeVisitor/DefaultOwnership/Decided.antt =====
-- The verdict that a visit of `DefaultOwnership` leaves behind.
use rul_checker.Prelude.{
  ℕ, zero, suc, ◌≡◌, ◌≢◌, refl, Bool, true, false, List, [], ◌∷◌, Bool-cases, inl, inr,
}
use rul_checker.Run.{Run, ret, index, unwrap, Holds, >>=-Holds, Holds-true}
use rul_checker.Rustc.{
  Tcx, TyKind, tuple, adt, array, param, raw_ptr, ref, bool, char, int, uint, float, str, slice,
  other, DefId, AdtDef, is_enum, GenericArg,
}
use rul_checker.Ownership.{owned, unowned, uninit, AdtOwner, RawTypeOwner, Verdict}
use rul_checker.TypeVisitor.{ControlFlow, continue, break, Visit, visit_all, contains}
use rul_checker.TypeVisitor.DefaultOwnership.{
  DefaultOwnership, expect_ty, visit_generics, visit_unit, visit_kind, visit_ty,
}

-- The verdict is settled, and a parameter counts as owned.
abbrev pub Decided : Verdict → Type 0
Decided d = (d.res ≢ uninit) × (d.param ≡ true → d.res ≡ owned)

abbrev pub Fine : ControlFlow × DefaultOwnership → Type 0
Fine r = Decided r.1.verdict

-- A visit keeps the verdict decided.
abbrev Keeps : {T : Type 0} → Visit T DefaultOwnership → Type 0
Keeps v = (t : _) (s : DefaultOwnership) → Decided s.verdict → Holds Fine (v t s)

pub owned-ne : owned ≢ uninit
owned-ne h = cc

pub unowned-ne : unowned ≢ uninit
unowned-ne h = cc

-- The rest of a loop is visited only if the visit did not break.
after :
    (c : ControlFlow) (rest : Run (ControlFlow × DefaultOwnership)) (s : DefaultOwnership)
    → Holds Fine rest
    → Decided s.verdict
    → Holds Fine (elim c [ continue ↦ rest | break ↦ ret (break, s) ])
after continue rest s h k = h
after break rest s h k = k

module _ {T : Type 0} (v : Visit T DefaultOwnership) (k : Keeps v) where
  visit_all-Holds :
      (ts : List T) (s : DefaultOwnership) → Decided s.verdict → Holds Fine (visit_all v ts s)
  unfolding visit_all
  visit_all-Holds [] s h = h
  visit_all-Holds (t ∷ ts) s h =
      >>=-Holds Fine Fine (v t s) _ (k t s h)
        (λ r h'. after r.0 (visit_all v ts r.1) r.1 (visit_all-Holds ts r.1 h') h')

  visit_generics-Holds :
      (substs : List (GenericArg T)) (did : DefId) (i : ℕ) (gs : List Bool) (s : DefaultOwnership)
      → Decided s.verdict
      → Holds (λ s'. Decided s'.verdict) (visit_generics v substs did i gs s)
  unfolding visit_generics
  visit_generics-Holds substs did i [] s h = h
  visit_generics-Holds substs did i (false ∷ gs) s h =
      visit_generics-Holds substs did (suc i) gs s h
  visit_generics-Holds substs did i (true ∷ gs) s h =
      >>=-Holds (λ a. Unit) _ (index substs i) _ (Holds-true (index substs i))
        (λ arg _.
          >>=-Holds (λ a. Unit) _ (expect_ty arg) _ (Holds-true (expect_ty arg))
            (λ t _.
              >>=-Holds Fine _ (v t _) _ (k t _ h)
                (λ r h'. visit_generics-Holds substs did (suc i) gs r.1 h')))

  visit_unit-Holds :
      (d : AdtDef) (substs : List (GenericArg T)) (units : List (RawTypeOwner × List Bool))
      (s : DefaultOwnership)
      → Decided s.verdict
      → Holds Fine (visit_unit v d substs units s)
  unfolding visit_unit
  visit_unit-Holds d substs [] s h = h
  visit_unit-Holds d substs ((owned, generics) ∷ _) s h = (owned-ne, λ _. refl)
  visit_unit-Holds d substs ((unowned, generics) ∷ _) s h =
      >>=-Holds (λ s'. Decided s'.verdict) Fine (visit_generics v substs d.did 0 generics s) _
        (visit_generics-Holds substs d.did 0 generics s h) (λ s' h'. h')
  visit_unit-Holds d substs ((uninit, generics) ∷ _) s h = tt

module _ (tcx : Tcx) (owner : AdtOwner) where
  open tcx use {Ty, kind, super_tys}

  visit_kind-Holds :
      (v : Visit Ty DefaultOwnership) (keeps : Keeps v) (ty : Ty) (k : TyKind Ty)
      (s : DefaultOwnership)
      → Decided s.verdict
      → Holds Fine (visit_kind tcx owner v ty k s)
  unfolding visit_kind
  visit_kind-Holds v keeps ty (adt d substs) s h = elim (Bool-cases (is_enum d.adt_kind)) [
    | inl e ↦ rw e h
    | inr e ↦ elim (Bool-cases (contains s.unique d.did)) [
      | inl met ↦ rw (e, met) h
      | inr new ↦
          rw (e, new)
            (>>=-Holds (λ a. Unit) Fine (unwrap (owner d.did)) _ (Holds-true (unwrap (owner d.did)))
              (λ units _. visit_unit-Holds v keeps d substs units _ h))
    ]
  ]
  visit_kind-Holds v keeps ty (array t size) s h = visit_all-Holds v keeps (super_tys ty) s h
  visit_kind-Holds v keeps ty (tuple ts) s h = visit_all-Holds v keeps (super_tys ty) s h
  visit_kind-Holds v keeps ty (param i name) s h = (owned-ne, λ _. refl)
  visit_kind-Holds v keeps ty (raw_ptr t mutbl) s h = h
  visit_kind-Holds v keeps ty (ref region t mutbl) s h = h
  visit_kind-Holds v keeps ty bool s h = h
  visit_kind-Holds v keeps ty char s h = h
  visit_kind-Holds v keeps ty (int ity) s h = h
  visit_kind-Holds v keeps ty (uint uty) s h = h
  visit_kind-Holds v keeps ty (float fty) s h = h
  visit_kind-Holds v keeps ty str s h = h
  visit_kind-Holds v keeps ty (slice t) s h = h
  visit_kind-Holds v keeps ty (other n) s h = h

  pub visit_ty-Holds : (fuel : ℕ) → Keeps (visit_ty tcx owner fuel)
  unfolding visit_ty
  visit_ty-Holds zero t s h = tt
  visit_ty-Holds (suc fuel) t s h =
      visit_kind-Holds (visit_ty tcx owner fuel) (visit_ty-Holds fuel) t (kind t) s h
