-- ===== src/Flow/Drop.antt =====
-- `handle_drop` and `handle_return` of src/analysis/flow_analysis/intro_visitor.rs: what is freed, and
-- what must be freed in the end. The verdict of the solver is not used by the code.
pub mod Freed
pub mod Field
pub mod Returned
use rul_checker.Prelude.{
  ℕ, zero, suc, Bool, true, false, not, ◌&&◌, ◌||◌, List, [], ◌∷◌, ◌++◌, if◌then◌else◌, ◌==◌, leb,
  length,
}
use rul_checker.Run.{index}
use rul_checker.State.{M, ◌>>=◌, ◌>>◌, skip, pure, lift, gets}
use rul_checker.Rustc.Mir.{Place}
use rul_checker.Ownership.{OwnershipLayout}
use rul_checker.Bits.{reverse_ownership_layout_to_rustbv, rustbv_to_int}
use rul_checker.Projection.{extract_projection, has_field, index_needed, ProjectionSupport}
use rul_checker.Slice.{IntroVar, init, declared, unsupported, is_init, is_declared, is_unsupported}
use rul_checker.Flow.{
  codes, new_local_name, Cx, St, var, len, layout, set_var, assert_both, eq,
  handle_intro_var_unsupported,
}
use rul_checker.Flow.Terms.{zeros, splice_field, ori_bv}

module _ (cx : Cx) where
  open cx use {z3, body, tcx.{Ty}, z3.{BV, Formula, bvand, bool_and, new_const, from_u64}}

  -- Drop of the whole item: nothing is left after a recovery, else what the layout does not own.
  pub drop_whole : ℕ → BV → ℕ → OwnershipLayout → Bool → ℕ → M (St cx) (Unit {0})
  drop_whole u ori n l recovery bidx =
      let suffix = (if recovery then codes "_drop_recovery" else codes "_drop_all") in
      let kept = (if recovery then 0 else rustbv_to_int (reverse_ownership_layout_to_rustbv l)) in
      let new_bv = new_const (new_local_name u bidx 0 ++ suffix) n in
      do
        f ← eq cx new_bv (bvand ori (from_u64 kept n))
        assert_both cx f
        set_var cx u (init new_bv)

  -- Drop of a field: past the layout nothing happens; a field that owns nothing is only renamed.
  pub drop_field : ℕ → BV → ℕ → OwnershipLayout → Bool → ℕ → ℕ → M (St cx) (Unit {0})
  drop_field u ori n l recovery i bidx =
      let rust_bv = reverse_ownership_layout_to_rustbv l in
      let suffix = (if recovery then codes "_drop_f_recovery" else codes "_drop_f") in
      let new_bv = new_const (new_local_name u bidx 0 ++ suffix) n in
      if leb (length rust_bv) i then skip else (do
        free ← lift (index rust_bv i)
        if (free && not recovery) || (not free && recovery)
            then (do f ← eq cx new_bv ori; assert_both cx f; set_var cx u (init new_bv))
            else (do
              final_bv ← splice_field cx ori i n (zeros cx 1)
              f ← eq cx new_bv final_bv
              assert_both cx f
              set_var cx u (init new_bv)))

  unfoldable pub handle_drop : Place Ty → ℕ → Bool → M (St cx) (Unit {0})
  unfolding drop_whole drop_field
  handle_drop dest bidx recovery = do
    let u = dest.local
    let f = extract_projection dest
    n ← len cx u
    if n == 0 then skip else (do
      v ← var cx u
      if is_declared v || is_unsupported v then skip else (do
        l ← layout cx u
        ori ← ori_bv cx u
        if f.unsupport
            then handle_intro_var_unsupported cx u
            else if has_field f
            then (do i ← lift (index_needed f); drop_field u ori n l recovery i bidx)
            else drop_whole u ori n l recovery bidx))

  -- At the end every local that is no argument must own nothing.
  pub return_var : ℕ → ℕ → IntroVar BV → M (St cx) (Unit {0})
  return_var bidx iidx declared = skip
  return_var bidx iidx unsupported = skip
  return_var bidx iidx (init ori) = do
    n ← len cx iidx
    let ret_bv = new_const (new_local_name iidx bidx 0 ++ codes "_return") n
    update ← eq cx ret_bv ori
    freed ← eq cx ret_bv (zeros cx n)
    assert_both cx (bool_and update freed)

  pub return_vars : ℕ → ℕ → List (IntroVar BV) → M (St cx) (Unit {0})
  unfolding return_var
  return_vars bidx iidx [] = skip
  return_vars bidx iidx (v ∷ vs) = do
    n ← len cx iidx
    if (n == 0) || leb iidx body.arg_count then skip else return_var bidx iidx v
    return_vars bidx (suc iidx) vs

  unfoldable pub handle_return : ℕ → M (St cx) (Unit {0})
  unfolding handle_drop return_vars
  handle_return bidx = do
    handle_drop (record { local = 0; projection = [] }) bidx false
    vs ← gets (λ s. s.slice.var)
    return_vars bidx 0 vs
