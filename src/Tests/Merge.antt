-- ===== src/Tests/Merge.antt =====
-- The start of a body that takes a pair (Box, i32), here the sample's _2.
use rul_checker.Prelude.{
  ℕ, ◌≡◌, refl, ◌↔◌, true, false, [], ◌∷◌, none, some, get_elem?, arith, ◌++◌,
}
use rul_checker.Run.{ret}
use rul_checker.Rustc.{tuple}
use rul_checker.TypeVisitor.{new_ty}
use rul_checker.Slice.{init, declared}
use rul_checker.Z3.Ast.{Term, const, Assignment, ast_laws, eval}
use rul_checker.Flow.{St, codes, new_local_name}
use rul_checker.Flow.Meaning.{Models}
use rul_checker.Flow.Merge.{init_arg, Sl}
use rul_checker.Flow.Merge.Arguments.{init_arg-owns}
use rul_checker.Tests.Sample.{sample_cx, before}
use rul_checker.Tests.Layout.{pair_layout, pair_computes}

-- No local is assigned.
abbrev start : Sl sample_cx
start = record {
  taint = [] ∷ [] ∷ [] ∷ [];
  var = declared ∷ declared ∷ declared ∷ [];
  len = 0 ∷ 0 ∷ 0 ∷ [];
  ty = none ∷ none ∷ none ∷ [];
  layout = [] ∷ [] ∷ [] ∷ [];
}

pair_known :
    new_ty {T = ℕ} (tuple (1 ∷ 0 ∷ [])) none ≡ ret (some (2, tuple (1 ∷ 0 ∷ []), none, true))
unfolding new_ty
pair_known = refl

abbrev argument : Term
argument = const (new_local_name 2 0 0 ++ codes "_arg_init") 2

init_arg-owns_example :
    (s' : St sample_cx) × (sl' : Sl sample_cx) × (init_arg sample_cx start 2 before ≡ ret (sl', s'))
    × (get_elem? sl'.var 2 ≡ some (init argument))
    × (get_elem? sl'.len 2 ≡ some 2)
    × (get_elem? sl'.ty 2 ≡ some (some (2, tuple (1 ∷ 0 ∷ []), none, true)))
    × ((m : Assignment)
        → Models sample_cx ast_laws m s'.solver
          ↔ (Models sample_cx ast_laws m before.solver × (eval m argument ≡ true ∷ false ∷ [])))
init_arg-owns_example =
    init_arg-owns sample_cx ast_laws before start 2 3 (2, tuple (1 ∷ 0 ∷ []), none, true)
      pair_layout declared 0 none refl pair_known pair_computes refl (omega arith) refl refl refl
