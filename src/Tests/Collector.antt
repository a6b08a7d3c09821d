-- ===== src/Tests/Collector.antt =====
-- The collector on the sample crate: `Pair<T>` holds a `Vec<T>`, which holds a `PhantomData<T>`.
use rul_checker.Prelude.{
  ℕ, ◌<◌, ◌≡◌, refl, Bool, true, ◌||◌, ◌==◌, if◌then◌else◌, List, [], ◌∷◌, some, All, arith,
}
use rul_checker.Run.{ret, Returns, ◌>>=◌}
use rul_checker.Rustc.{type_arg}
use rul_checker.TypeVisitor.{contains}
use rul_checker.Rustc.Mir.{Body, call, constant, return}
use rul_checker.TypeVisitor.Collector.{
  MirQueries, new_analysis, for_each, has_ty, visit_ty, visit_key,
}
use rul_checker.TypeVisitor.Collector.Called.{Called, own, calls, visit_key-reaches}
use rul_checker.TypeVisitor.Collector.Met.{Finite, inner}
use rul_checker.TypeVisitor.Collector.Reached.{Reaches, start, go, field}
use rul_checker.Tests.Types.{
  CrateTy, CrateTy-discrete, param_t, vec_t, ptr_t, phantom_t, pair_t, node_t, vec_node, ptr_node,
  phantom_node, crate_tcx, rank_of, rank_top, kind_of, pair_def, vec_def, phantom_def,
}

abbrev all_types : List CrateTy
all_types =
    param_t ∷ vec_t ∷ ptr_t ∷ phantom_t ∷ pair_t ∷ node_t ∷ vec_node ∷ ptr_node ∷ phantom_node ∷ []

has_all : (t : CrateTy) → has_ty crate_tcx all_types t ≡ true
unfolding CrateTy-discrete
has_all param_t = refl
has_all vec_t = refl
has_all ptr_t = refl
has_all phantom_t = refl
has_all pair_t = refl
has_all node_t = refl
has_all vec_node = refl
has_all ptr_node = refl
has_all phantom_node = refl

inner_below : (t : CrateTy) → All (λ u. rank_of u < rank_of t) (inner crate_tcx (kind_of t))
inner_below ptr_t = (omega arith, tt)
inner_below ptr_node = (omega arith, tt)
inner_below _ = tt

abbrev crate_finite : Finite crate_tcx
crate_finite = record {
  universe = all_types;
  complete = has_all;
  rank = rank_of;
  top = 1;
  rank_top = rank_top;
  rank_inner = inner_below;
}

pair_reaches_phantom : Reaches crate_tcx pair_t phantom_t
pair_reaches_phantom =
    go {u = vec_t} (field pair_def (type_arg param_t ∷ []) 1 _ refl refl)
      (go {u = phantom_t} (field vec_def (type_arg param_t ∷ []) 1 _ refl refl) start)

-- `main` (1) calls `helper` (2), which has a body and a local `Pair<T>`, and a function without one (3).
abbrev calling : List CrateTy → ℕ → Body CrateTy
calling ts f = record {
  local_decls = ts;
  arg_count = 0;
  basic_blocks =
      record {
        statements = [];
        terminator = call (constant (some f)) [] (record { local = 0; projection = [] }) (some 1);
      }
      ∷ record { statements = []; terminator = return }
      ∷ [];
}

abbrev body_of : ℕ → Body CrateTy
body_of f = if f == 1 then calling [] 2 else calling (pair_t ∷ []) 3

abbrev has_body : ℕ → Bool
has_body f = f == 1 || f == 2

abbrev two_fns : MirQueries CrateTy
two_fns = record { mir_keys = 1 ∷ []; is_mir_available = has_body; mir_body = body_of }

helper-Called : Called CrateTy two_fns 2
helper-Called = calls 0 _ (own 0 refl) refl refl refl

both_fns : (f : ℕ) → has_body f ≡ true → contains (1 ∷ 2 ∷ []) f ≡ true
both_fns f h = ground (arith, h)

visit_key-reaches_example :
    Returns
      (λ s. contains s.adt_recorder 11 ≡ true)
      (for_each (visit_key crate_tcx two_fns 20 3) (1 ∷ []) new_analysis)
visit_key-reaches_example =
    visit_key-reaches crate_tcx two_fns crate_finite (1 ∷ 2 ∷ []) 20 3 2 0 pair_t phantom_t
      phantom_def (type_arg param_t ∷ []) (omega arith) both_fns (omega arith) helper-Called refl
      pair_reaches_phantom refl

-- The definitions in the order of their insertion, the last first.
pair_records :
    (visit_ty crate_tcx 20 pair_t new_analysis >>= λ s. ret s.adt_recorder)
    ≡ ret (11 ∷ 10 ∷ 12 ∷ [])
unfolding visit_ty CrateTy-discrete
pair_records = refl
