-- ===== src/Tests/Assign.antt =====
-- `y = move x` and `y = x` at the sample.
use rul_checker.Prelude.{◌≡◌, ◌≢◌, refl, ◌↔◌, ◌⊎◌, List, [], ◌∷◌, none, some, true, arith, suc}
use rul_checker.Run.{Run, ret, ◌>>=◌}
use rul_checker.Rustc.{tuple, raw_ptr, mutable, immutable}
use rul_checker.Ownership.{owned, unowned}
use rul_checker.TypeVisitor.{new_ty, get_priority}
use rul_checker.Slice.{IntroVar, init, declared, unsupported, TyWithIndex-discrete}
use rul_checker.Flow.Terms.{prepare_whole}
use rul_checker.Z3.Ast.{Term, ast_laws, Assignment, eval}
use rul_checker.Bits.Fields.{nothing}
use rul_checker.Flow.{St, handle_intro_var_unsupported}
use rul_checker.Flow.Meaning.{Models}
use rul_checker.Flow.Assign.{handle_move, handle_copy}
use rul_checker.Flow.Assign.Ready.{At, CanOwn}
use rul_checker.Flow.Assign.Transfer.{
  Rebound, new_l, new_r, handle_move-transfers, handle_copy-shares,
}
use rul_checker.Tests.Sample.{sample_cx, at, before, old_bv}

at_3 : At sample_cx ast_laws before 3 declared 0
at_3 = record {
  at_var = refl;
  at_len = refl;
  ty_at = none;
  at_ty = refl;
  layout_at = [];
  at_layout = refl;
  taint_at = [];
  at_taint = refl;
}

at_2 : At sample_cx ast_laws before 2 (init old_bv) 2
at_2 = record {
  at_var = refl;
  at_len = refl;
  ty_at = some (2, tuple (1 ∷ 0 ∷ []), none, true);
  at_ty = refl;
  layout_at = owned ∷ unowned ∷ [];
  at_layout = refl;
  taint_at = [];
  at_taint = refl;
}

apart_3_2 : suc 2 ≢ 2
apart_3_2 h = omega arith

pair_fits : CanOwn sample_cx ast_laws (at 2)
unfolding new_ty get_priority
pair_fits = (some (2, tuple (1 ∷ 0 ∷ []), none, true), refl, refl)

handle_move-transfers_example :
    (s' : St sample_cx) × (handle_move sample_cx (at 3) (at 2) 4 1 before ≡ ret (tt, s'))
    × Rebound sample_cx ast_laws before
        (at 3)
        (at 2)
        4
        1
        1
        0
        old_bv
        declared
        at_3
        at_2
        pair_fits
        apart_3_2
        refl
        s'
    × ((m : Assignment)
        → Models sample_cx ast_laws m s'.solver ↔ (
            Models sample_cx ast_laws m before.solver
            × Unit {0}
            × (eval m (new_l sample_cx ast_laws true (at 3) 2 4 1) ≡ eval m old_bv)
            × (eval m (new_r sample_cx ast_laws (at 2) 2 4 1) ≡ nothing 2)))
handle_move-transfers_example =
    handle_move-transfers sample_cx ast_laws before (at 3) (at 2) 4 1 1 0 old_bv declared at_3 at_2
      pair_fits apart_3_2 refl

handle_copy-shares_example :
    (s' : St sample_cx) × (handle_copy sample_cx (at 3) (at 2) 4 1 before ≡ ret (tt, s'))
    × Rebound sample_cx ast_laws before
        (at 3)
        (at 2)
        4
        1
        1
        0
        old_bv
        declared
        at_3
        at_2
        pair_fits
        apart_3_2
        refl
        s'
    × ((m : Assignment)
        → Models sample_cx ast_laws m s'.solver ↔ (
            Models sample_cx ast_laws m before.solver
            × Unit {0}
            × ((eval m (new_r sample_cx ast_laws (at 2) 2 4 1) ≡ eval m old_bv)
                  × (eval m (new_l sample_cx ast_laws true (at 3) 2 4 1) ≡ nothing 2)
                ⊎ (eval m (new_l sample_cx ast_laws true (at 3) 2 4 1) ≡ eval m old_bv)
                  × (eval m (new_r sample_cx ast_laws (at 2) 2 4 1) ≡ nothing 2))))
handle_copy-shares_example =
    handle_copy-shares sample_cx ast_laws before (at 3) (at 2) 4 1 1 0 old_bv declared at_3 at_2
      pair_fits apart_3_2 refl

-- Both locals hold pointers to the same type, one mutable and one not.
abbrev pointers : St sample_cx
pointers = record before {
  slice = record {
    taint = [] ∷ [] ∷ [] ∷ [] ∷ [];
    var = declared ∷ declared ∷ init old_bv ∷ init old_bv ∷ [];
    len = 0 ∷ 0 ∷ 1 ∷ 1 ∷ [];
    ty =
        none
        ∷ none
        ∷ some (1, raw_ptr 1 mutable, none, true)
        ∷ some (1, raw_ptr 1 immutable, none, true)
        ∷ [];
    layout = [] ∷ [] ∷ (unowned ∷ []) ∷ (unowned ∷ []) ∷ [];
  };
}

given_up : Run (Unit {0} × St sample_cx) → Run (List (IntroVar Term))
given_up r = r >>= λ x. ret x.1.slice.var

move_of_another_type :
    given_up (handle_move sample_cx (at 3) (at 2) 4 1 pointers)
    ≡ ret (declared ∷ declared ∷ unsupported ∷ unsupported ∷ [])
unfolding given_up handle_move prepare_whole TyWithIndex-discrete handle_intro_var_unsupported
move_of_another_type = refl

copy_of_another_type :
    given_up (handle_copy sample_cx (at 3) (at 2) 4 1 pointers)
    ≡ ret (declared ∷ declared ∷ unsupported ∷ unsupported ∷ [])
unfolding given_up handle_copy prepare_whole TyWithIndex-discrete handle_intro_var_unsupported
copy_of_another_type = refl
