-- ===== src/Tests/Phases.antt =====
-- The passes over the sample crate.
use rul_checker.Prelude.{◌≡◌, refl, true, false, [], ◌∷◌, map, none, some, arith, All}
use rul_checker.Run.{ret, Returns, ◌>>=◌}
use rul_checker.Rustc.{type_arg}
use rul_checker.Ownership.{owned, unowned, AdtOwner}
use rul_checker.TypeVisitor.{visit_all, visit_each}
use rul_checker.TypeVisitor.RawGeneric.{visit_raw, visit_subst}
use rul_checker.TypeVisitor.Propagation.{visit_prop, visit_owner}
use rul_checker.TypeVisitor.Propagation.Owner.{Advanced, visit_owner-Returns}
use rul_checker.TypeVisitor.Propagation.Flags.{Marked, visit_prop-Returns}
use rul_checker.TypeVisitor.FindPtr.{visit_ptr}
use rul_checker.TypeVisitor.Total.Unique.{missing}
use rul_checker.TypeVisitor.Phases.{insert_owner, extract_raw_generic, run_passes}
use rul_checker.TypeVisitor.Phases.Settled.{Settled}
use rul_checker.TypeVisitor.Phases.Units.{structural_unit}
use rul_checker.TypeVisitor.Phases.Steps.{extract_raw_generic-eq}
use rul_checker.TypeVisitor.Phases.Passes.{run_passes-Settled}
use rul_checker.Tests.Types.{
  param_t, pair_t, node_t, crate_tcx, crate_shape, crate_dids, pair_def, everything_recorded,
  definitions,
}

abbrev no_owner : AdtOwner
no_owner d = none

run_passes-Settled_example :
    Returns
      (λ o. All (Settled crate_tcx o) crate_dids)
      (run_passes crate_tcx 10 crate_dids no_owner)
run_passes-Settled_example =
    run_passes-Settled crate_tcx crate_shape 10 crate_dids everything_recorded definitions
      (omega arith) no_owner

-- `Pair<T>` stores its parameter raw, and owns through its `Vec<T>`.
pair_owner :
    (run_passes crate_tcx 10 crate_dids no_owner >>= λ o. ret (o 12))
    ≡ ret (some ((owned, true ∷ []) ∷ []))
unfolding run_passes visit_each visit_raw visit_prop visit_subst visit_all visit_ptr visit_owner
pair_owner = refl

-- `Vec<T>` stores no parameter raw, and owns by its `PhantomData<T>` and its pointer.
vec_owner :
    (run_passes crate_tcx 10 crate_dids no_owner >>= λ o. ret (o 10))
    ≡ ret (some ((owned, false ∷ []) ∷ []))
unfolding run_passes visit_each visit_raw visit_prop visit_subst visit_all visit_ptr visit_owner
vec_owner = refl

extract_raw_generic-eq_example :
    extract_raw_generic crate_tcx 10 12 no_owner
    ≡ ret (
        insert_owner no_owner 12 (
          map (structural_unit crate_tcx crate_shape 10 (type_arg param_t ∷ [])) pair_def.variants))
extract_raw_generic-eq_example =
    extract_raw_generic-eq crate_tcx crate_shape 10 12 no_owner pair_def (type_arg param_t ∷ [])
      refl ((omega arith, (omega arith, tt)), tt) (omega arith)

-- Every definition has one unit, with its parameter stored raw.
abbrev one_unit : AdtOwner
one_unit d = some ((unowned, true ∷ []) ∷ [])

visit_owner-Returns_example :
    Returns
      (λ r. Advanced (record { ownership = unowned; unique = [] }) r.1)
      (visit_owner crate_tcx one_unit 10 node_t (record { ownership = unowned; unique = [] }))
unfolding missing
visit_owner-Returns_example =
    visit_owner-Returns crate_tcx one_unit crate_dids crate_shape everything_recorded
      (λ d h. ((unowned, true ∷ []) ∷ [], refl)) 10 node_t
      (record { ownership = unowned; unique = [] }) (omega arith)

visit_prop-Returns_example :
    Returns
      (λ r. Marked (record { flags = false ∷ []; unique = [] }) r.1)
      (visit_prop crate_tcx one_unit false 10 pair_t (record { flags = false ∷ []; unique = [] }))
unfolding missing
visit_prop-Returns_example =
    visit_prop-Returns crate_tcx one_unit crate_dids 1 crate_shape everything_recorded
      (λ d h. ((unowned, true ∷ []) ∷ [], refl)) false 10 pair_t
      (record { flags = false ∷ []; unique = [] }) (omega arith) (omega arith) refl
