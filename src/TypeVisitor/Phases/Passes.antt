-- ===== src/TypeVisitor/Phases/Passes.antt =====
-- The four passes over all recorded types, one after the other.
use rul_checker.Prelude.{
  ℕ, suc, ◌+◌, ◌*◌, ◌<◌, ◌≡◌, refl, subst, sym, true, List, [], ◌∷◌, arith, All, All-map, length,
  ◌⊎◌, inl, inr, Bool-cases, ◌==◌, ==_iff,
}
use rul_checker.Run.{Run, Returns, >>=-Returns, Returns-map}
use rul_checker.Rustc.{Tcx, DefId}
use rul_checker.Rustc.Shape.{Shape, IsDefinition, dids_of}
use rul_checker.Ownership.{AdtOwner}
use rul_checker.TypeVisitor.{contains}
use rul_checker.TypeVisitor.Propagation.Owner.{HasUnits}
use rul_checker.TypeVisitor.Phases.{
  start_channel, extract_raw_generic, extract_raw_generic_prop, extract_phantom_unit,
  extract_owner_prop, run_passes,
}
use rul_checker.TypeVisitor.Phases.Settled.{Settled, Keeps, Settled-insert_self, Keeps-insert}
use rul_checker.TypeVisitor.Phases.Steps.{
  Writes, extract_raw_generic-Returns, extract_raw_generic_prop-Returns,
  extract_phantom_unit-Returns, extract_owner_prop-Returns,
}

-- What holds of all of a list holds of what it contains.
pub All-contains :
    (P : DefId → Type 0) (ds : List DefId) (d : DefId) → All P ds → contains ds d ≡ true → P d
All-contains P [] d h e = cc
All-contains P (x ∷ ds) d h e = elim (Bool-cases (d == x)) [
  | inl same ↦ subst P (sym ((==_iff d x).0 same)) h.0
  | inr other ↦
      (let rest : contains ds d ≡ true = ground (arith, e, other) in All-contains P ds d h.1 rest)
]

All-contains_self : (ds : List DefId) → All (λ d. contains ds d ≡ true) ds
All-contains_self [] = tt
All-contains_self (d ∷ ds) = (
  ground arith,
  All-map {Q = λ x. contains (d ∷ ds) x ≡ true} (λ x h. ground (arith, h)) ds
      (All-contains_self ds),
)

-- The passes need a bound `enough` on the nesting of visits, that every ADT is recorded, and that what
-- is recorded is the definition of an ADT.
module _ (tcx : Tcx) (shape : Shape tcx) (fuel : ℕ) (dids : List DefId)
    (known : (t : tcx.Ty) → All (λ d. contains dids d ≡ true) (dids_of (tcx.kind t)))
    (defs : All (λ d. IsDefinition tcx shape (tcx.kind (tcx.type_of d))) dids)
    (enough : length dids * suc shape.top + shape.top < fuel) where
  abbrev AllSettled : AdtOwner → Type 0
  AllSettled owner = All (Settled tcx owner) dids

  definition :
      (d : DefId) → contains dids d ≡ true → IsDefinition tcx shape (tcx.kind (tcx.type_of d))
  definition d e =
      All-contains (λ x. IsDefinition tcx shape (tcx.kind (tcx.type_of x))) dids d defs e

  Writes-Settled :
      (did : DefId) (owner o : AdtOwner)
      → Writes (tcx.kind (tcx.type_of did)) owner did o
      → Settled tcx o did × Keeps tcx owner o
  Writes-Settled did owner o h =
      subst (λ x. Settled tcx x did × Keeps tcx owner x) (sym h.1)
        (Settled-insert_self tcx owner did h.0 h.2, Keeps-insert tcx owner did h.0 h.2)

  first_pass :
      (ds : List DefId) (owner : AdtOwner)
      → All (λ d. contains dids d ≡ true) ds
      → Returns
          (λ o. All (Settled tcx o) ds × Keeps tcx owner o)
          (start_channel (extract_raw_generic tcx fuel) ds owner)
  first_pass [] owner sub = (tt, λ d s. s)
  first_pass (did ∷ ds) owner sub =
      >>=-Returns (Writes (tcx.kind (tcx.type_of did)) owner did) _
        (extract_raw_generic tcx fuel did owner) _
        (extract_raw_generic-Returns tcx shape fuel (tcx.kind (tcx.type_of did)) did owner refl
          (definition did sub.0) (omega arith))
        (λ o w.
          let done = Writes-Settled did owner o w in
          Returns-map (start_channel (extract_raw_generic tcx fuel) ds o) (first_pass ds o sub.1)
            (λ o' h. ((h.1 did done.0, h.0), λ d s. h.1 d (done.1 d s))))

  abbrev Keeping : (DefId → AdtOwner → Run AdtOwner) → Type 0
  Keeping method =
      (did : DefId)
      → contains dids did ≡ true
      → (owner : AdtOwner) → AllSettled owner
      → Returns (Keeps tcx owner) (method did owner)

  -- A pass that keeps what is settled, where all is settled.
  later_pass :
      (method : DefId → AdtOwner → Run AdtOwner)
      → Keeping method
      → (ds : List DefId) (owner : AdtOwner) → All (λ d. contains dids d ≡ true) ds
      → AllSettled owner
      → Returns AllSettled (start_channel method ds owner)
  later_pass method each [] owner sub h = h
  later_pass method each (did ∷ ds) owner sub h =
      >>=-Returns (Keeps tcx owner) AllSettled (method did owner) _ (each did sub.0 owner h)
        (λ o k. later_pass method each ds o sub.1 (All-map k dids h))

  units_of :
      (owner : AdtOwner)
      → AllSettled owner
      → (d : DefId) → contains dids d ≡ true
      → HasUnits owner d
  units_of owner h d e = let s = All-contains (Settled tcx owner) dids d h e in (s.0, s.1)

  prop_step : Keeping (extract_raw_generic_prop tcx fuel)
  prop_step did e owner h =
      Returns-map (extract_raw_generic_prop tcx fuel did owner)
        (extract_raw_generic_prop-Returns tcx shape fuel dids known enough
          (tcx.kind (tcx.type_of did)) did owner refl (definition did e) (units_of owner h)
          (All-contains (Settled tcx owner) dids did h e))
        (λ o w. (Writes-Settled did owner o w).1)

  owner_step : Keeping (extract_owner_prop tcx fuel)
  owner_step did e owner h =
      Returns-map (extract_owner_prop tcx fuel did owner)
        (extract_owner_prop-Returns tcx shape fuel dids known enough (tcx.kind (tcx.type_of did))
          did owner refl (definition did e) (units_of owner h)
          (All-contains (Settled tcx owner) dids did h e))
        (λ o w. (Writes-Settled did owner o w).1)

  Keeps-either :
      (did : DefId) (owner o : AdtOwner)
      → (Writes (tcx.kind (tcx.type_of did)) owner did o ⊎ (o ≡ owner))
      → Keeps tcx owner o
  Keeps-either did owner o (inl w) = (Writes-Settled did owner o w).1
  Keeps-either did owner o (inr same) = λ d s. subst (λ x. Settled tcx x d) (sym same) s

  phantom_step : Keeping (extract_phantom_unit tcx fuel)
  phantom_step did e owner h =
      Returns-map (extract_phantom_unit tcx fuel did owner)
        (extract_phantom_unit-Returns tcx shape fuel dids known enough (tcx.kind (tcx.type_of did))
          did owner refl (definition did e) (All-contains (Settled tcx owner) dids did h e))
        (λ o w. Keeps-either did owner o w)

  -- Whatever the map of owners is, the passes over the recorded types return, and leave for each of
  -- them one unit per variant, with a flag for each generic parameter and an ownership that is not
  -- `Uninit`. The fuel is above the nesting of definitions times that of types; every ADT of the
  -- crate is recorded, and for what is recorded `type_of` gives the definition of an ADT.
  pub run_passes-Settled :
      (owner : AdtOwner) → Returns (λ o. All (Settled tcx o) dids) (run_passes tcx fuel dids owner)
  unfolding run_passes
  run_passes-Settled owner =
      let all = All-contains_self dids in
      >>=-Returns AllSettled AllSettled (start_channel (extract_raw_generic tcx fuel) dids owner) _
        (Returns-map (start_channel (extract_raw_generic tcx fuel) dids owner)
          (first_pass dids owner all) (λ o h. h.0))
        (λ o1 h1.
          >>=-Returns AllSettled AllSettled
            (start_channel (extract_raw_generic_prop tcx fuel) dids o1) _
            (later_pass (extract_raw_generic_prop tcx fuel) prop_step dids o1 all h1)
            (λ o2 h2.
              >>=-Returns AllSettled AllSettled
                (start_channel (extract_phantom_unit tcx fuel) dids o2) _
                (later_pass (extract_phantom_unit tcx fuel) phantom_step dids o2 all h2)
                (λ o3 h3. later_pass (extract_owner_prop tcx fuel) owner_step dids o3 all h3)))
