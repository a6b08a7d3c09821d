-- ===== src/Tests/Drop.antt =====
-- The drop of the sample's local _2 and the end of the body.
use rul_checker.Prelude.{ℕ, set, ◌++◌, ◌≡◌, refl, ◌↔◌, false, [], ◌∷◌, some, get_elem?, arith}
use rul_checker.Run.{ret}
use rul_checker.Ownership.{owned, unowned}
use rul_checker.Bits.Layouts.{IsSettled}
use rul_checker.Slice.{init}
use rul_checker.Z3.{zip_and}
use rul_checker.Z3.Ast.{Term, const, Assignment, ast_laws, eval}
use rul_checker.Flow.{St, codes, new_local_name}
use rul_checker.Flow.Meaning.{Models}
use rul_checker.Flow.Drop.{handle_drop, return_vars}
use rul_checker.Flow.Drop.Freed.{dropped, kept_bits, handle_drop-frees}
use rul_checker.Flow.Drop.Field.{handle_drop-clears}
use rul_checker.Projection.{extract_projection}
use rul_checker.Rustc.Mir.{Place, field_elem}
use rul_checker.Flow.Drop.Returned.{AllFreed, return_vars-frees}
use rul_checker.Tests.Sample.{sample_cx, at, before, old_bv}

pair_settled : IsSettled (owned ∷ unowned ∷ [])
pair_settled = (λ h. cc, (λ h. cc, tt))

-- The bit vector of _2 after its drop.
abbrev after : Term
after =
    dropped sample_cx ast_laws before 2 4 1 old_bv (owned ∷ unowned ∷ []) false refl refl refl refl
      pair_settled refl (omega arith)

handle_drop-frees_example :
    (s' : St sample_cx) × (handle_drop sample_cx (at 2) 4 false before ≡ ret (tt, s'))
    × (get_elem? s'.slice.var 2 ≡ some (init after))
    × ((m : Assignment)
        → Models sample_cx ast_laws m s'.solver ↔ (
            Models sample_cx ast_laws m before.solver
            × (eval m after
                ≡ zip_and (eval m old_bv) (
                    kept_bits sample_cx ast_laws before 2 4 1 old_bv
                      (owned ∷ unowned ∷ [])
                      false
                      refl
                      refl
                      refl
                      refl
                      pair_settled
                      refl
                      (omega arith)))))
handle_drop-frees_example =
    handle_drop-frees sample_cx ast_laws before 2 4 1 old_bv (owned ∷ unowned ∷ []) false refl refl
      refl refl pair_settled refl (omega arith)

return_vars-frees_example :
    (s' : St sample_cx) × (return_vars sample_cx 4 0 before.slice.var before ≡ ret (tt, s'))
    × (s'.slice ≡ before.slice)
    × ((m : Assignment)
        → Models sample_cx ast_laws m s'.solver ↔ (
            Models sample_cx ast_laws m before.solver
            × AllFreed sample_cx ast_laws 4 m 0 before.slice.var before.slice.len))
return_vars-frees_example =
    return_vars-frees sample_cx ast_laws before 4 0 before.slice.var before.slice.len refl
      (refl, tt)

-- _2.0
abbrev first : Place ℕ
first = record { local = 2; projection = field_elem 0 1 ∷ [] }

first_supported : (extract_projection first).unsupport ≡ false
unfolding extract_projection
first_supported = refl

first_fields : (extract_projection first).pf_vec ≡ (0, 1) ∷ []
unfolding extract_projection
first_fields = refl

-- The bit vector of _2 after the drop of _2.0.
abbrev after_field : Term
after_field = const (new_local_name 2 4 0 ++ codes "_drop_f") 2

handle_drop-clears_example :
    (s' : St sample_cx) × (handle_drop sample_cx first 4 false before ≡ ret (tt, s'))
    × (get_elem? s'.slice.var 2 ≡ some (init after_field))
    × ((m : Assignment)
        → Models sample_cx ast_laws m s'.solver ↔ (
            Models sample_cx ast_laws m before.solver
            × (eval m after_field ≡ set (eval m old_bv) 0 false)))
handle_drop-clears_example =
    handle_drop-clears sample_cx ast_laws before first 1 0 4 2 old_bv (owned ∷ unowned ∷ []) owned
      false first_supported first_fields refl refl refl pair_settled refl refl refl
