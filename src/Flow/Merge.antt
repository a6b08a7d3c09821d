-- ===== src/Flow/Merge.antt =====
-- `preprocess_for_basic_block` of src/analysis/flow_analysis/intro_visitor.rs: the slice that a block
-- starts from, by the number of its predecessors.
pub mod Arguments
use rul_checker.Prelude.{
  ℕ, zero, suc, Bool, true, false, not, List, [], ◌∷◌, ◌++◌, Option, none, some, if◌then◌else◌,
  length, ite,
}
use rul_checker.Run.{panic, index}
use rul_checker.State.{M, ◌>>=◌, ◌>>◌, skip, pure, lift, gets, modify, write}
use rul_checker.Bits.{ownership_layout_to_rustbv, rustbv_to_int}
use rul_checker.TypeVisitor.{TyWithIndex}
use rul_checker.Slice.{
  IcxSlice, IntroVar, init, declared, unsupported, new_for_block_0, TyWithIndex-discrete,
}
use rul_checker.Slice.Context.{derive_from_pre_node, new_in, new_out, taint_merge}
use rul_checker.Flow.{
  codes, new_local_name, Cx, St, assert_both, eq, local_ty, ty_with_index, default_layout,
  handle_intro_var_unsupported,
}

module _ (cx : Cx) where
  open cx use {z3, body, graph, tcx.{Ty, Ty-discrete}, z3.{BV, new_const, from_u64, bvand}}

  abbrev pub Sl : Type 0
  Sl = IcxSlice Ty BV

  -- Writes to a slice that is not yet the state's.
  abbrev put_var : Sl → ℕ → IntroVar BV → M (St cx) Sl
  put_var sl u v = do vs ← lift (write sl.var u v); pure (record sl { var = vs })

  abbrev put_len : Sl → ℕ → ℕ → M (St cx) Sl
  put_len sl u n = do ns ← lift (write sl.len u n); pure (record sl { len = ns })

  abbrev put_ty : Sl → ℕ → TyWithIndex Ty → M (St cx) Sl
  put_ty sl u t = do ts ← lift (write sl.ty u t); pure (record sl { ty = ts })

  -- One argument. An unsupported type marks the state's slice, and not the one under construction.
  pub init_arg : Sl → ℕ → M (St cx) Sl
  init_arg sl idx = do
    t ← local_ty cx idx
    ty_idx ← ty_with_index cx t none
    elim ty_idx [
      | none ↦ do handle_intro_var_unsupported cx idx; pure sl
      | some info ↦ do
        own ← default_layout cx t none
        if not own.owned_flag
            then (do sl1 ← put_len sl idx 0; sl2 ← put_var sl1 idx unsupported; put_ty sl2 idx none)
            else (do
              let n = length own.layout
              let new_bv = new_const (new_local_name idx 0 0 ++ codes "_arg_init") n
              f ← eq cx new_bv (from_u64 (rustbv_to_int (ownership_layout_to_rustbv own.layout)) n)
              assert_both cx f
              sl1 ← put_len sl idx n
              sl2 ← put_var sl1 idx (init new_bv)
              put_ty sl2 idx (some info))
    ]

  -- The arguments from `idx` on, `n` of them.
  unfoldable pub init_args : ℕ → ℕ → Sl → M (St cx) Sl
  unfolding init_arg
  init_args zero idx sl = pure sl
  init_args (suc n) idx sl = do sl' ← init_arg sl idx; init_args n (suc idx) sl'

  -- What the inner loop carries: the slice under construction, the conjunction of the bit vectors so
  -- far with the type and length of the first, and whether the variable is unsupported.
  pub record Joined : Type 0 where
    pub ans : Sl
    pub joined_bv : Option BV
    pub joined_ty : TyWithIndex Ty
    pub joined_len : ℕ
    pub given_up : Bool

  abbrev same_ty : TyWithIndex Ty → TyWithIndex Ty → Bool
  same_ty a b = ite (TyWithIndex-discrete Ty-discrete a b) true false

  give_up_join : Joined → ℕ → M (St cx) Joined
  give_up_join j u = do
    sl1 ← put_len j.ans u 0
    sl2 ← put_var sl1 u unsupported
    pure (record j { ans = sl2; given_up = true })

  -- The first initialised predecessor gives the type, the length and the bit vector.
  adopt : Joined → Sl → ℕ → BV → M (St cx) Joined
  adopt j p u bv = do
    t ← lift (index p.ty u)
    n ← lift (index p.len u)
    sl1 ← put_ty j.ans u t
    sl2 ← put_len sl1 u n
    pure
        (record { ans = sl2; joined_bv = some bv; joined_ty = t; joined_len = n; given_up = false })

  join_init : Joined → Sl → ℕ → BV → M (St cx) (Joined × Bool)
  unfolding adopt give_up_join
  join_init j p u bv = do
    j' ← (if same_ty j.joined_ty none then adopt j p u bv else pure j)
    t ← lift (index p.ty u)
    if not (same_ty j'.joined_ty t)
        then (do j'' ← give_up_join j' u; pure (j'', true))
        else (elim j'.joined_bv [
          | none ↦ lift panic
          | some acc ↦ do
            ans' ← lift (taint_merge Ty-discrete j'.ans p u)
            pure (record j' { ans = ans'; joined_bv = some (bvand acc bv) }, false)
        ])

  -- One predecessor, and whether the loop breaks.
  join_pre : Joined → Sl → ℕ → M (St cx) (Joined × Bool)
  unfolding join_init give_up_join
  join_pre j p u = do
    v ← lift (index p.var u)
    elim v [
      | declared ↦ pure (j, false)
      | unsupported ↦ do j' ← give_up_join j u; pure (j', true)
      | init bv ↦ join_init j p u bv
    ]

  join_pres : List Sl → ℕ → Joined → M (St cx) Joined
  unfolding join_pre
  join_pres [] u j = pure j
  join_pres (p ∷ ps) u j = do r ← join_pre j p u; if r.1 then pure r.0 else join_pres ps u r.0

  abbrev set_icx_slice : Sl → M (St cx) (Unit {0})
  set_icx_slice sl = modify (λ s. record s { slice = sl })

  -- One variable: phi = the conjunction over the predecessors that have it.
  join_var : List Sl → ℕ → ℕ → Sl → M (St cx) Sl
  unfolding join_pres
  join_var pres bidx u ans = do
    let start : Joined = record {
      ans = ans;
      joined_bv = none;
      joined_ty = none;
      joined_len = 0;
      given_up = false;
    }
    j ← join_pres pres u start
    if j.given_up then (do set_icx_slice j.ans; pure j.ans) else (elim j.joined_bv [
      | none ↦ do set_icx_slice j.ans; pure j.ans
      | some bv ↦ do
        let phi = new_const (new_local_name u bidx 0 ++ codes "_phi") j.joined_len
        f ← eq cx phi bv
        assert_both cx f
        ans' ← put_var j.ans u (init phi)
        set_icx_slice ans'
        pure ans'
    ])

  join_vars : ℕ → ℕ → List Sl → ℕ → Sl → M (St cx) (Unit {0})
  unfolding join_var
  join_vars zero u pres bidx ans = skip
  join_vars (suc n) u pres bidx ans = do
    ans' ← join_var pres bidx u ans
    join_vars n (suc u) pres bidx ans'

  collect_outs : List ℕ → M (St cx) (List Sl)
  collect_outs [] = pure []
  collect_outs (idx ∷ ids) = do
    icx ← gets (λ s. s.icx)
    sl ← lift (new_out icx idx)
    rest ← collect_outs ids
    pure (sl ∷ rest)

  start_block : ℕ → List ℕ → M (St cx) (Unit {0})
  unfolding join_vars collect_outs
  start_block bidx [] = lift panic
  start_block bidx (p ∷ []) = do
    icx ← gets (λ s. s.icx)
    icx' ← lift (derive_from_pre_node icx p bidx)
    modify (λ s. record s { icx = icx' })
    sl ← lift (new_in icx' bidx)
    set_icx_slice sl
  start_block bidx (p ∷ q ∷ ps) = do
    first ← (do icx ← gets (λ s. s.icx); lift (new_out icx p))
    rest ← collect_outs (q ∷ ps)
    join_vars (length first.len) 0 (first ∷ rest) bidx first

  unfoldable pub preprocess_for_basic_block : ℕ → M (St cx) (Unit {0})
  unfolding init_args start_block
  preprocess_for_basic_block zero = do
    sl ← init_args body.arg_count 1 (new_for_block_0 (length body.local_decls))
    set_icx_slice sl
  preprocess_for_basic_block (suc b) = do
    pre ← lift (index graph.pre (suc b))
    start_block (suc b) pre
