-- ===== src/Flow/Terms.antt =====
-- The terms and guards that the assignment handlers of
-- src/analysis/flow_analysis/intro_visitor.rs repeat.
use rul_checker.Prelude.{
  ℕ, suc, ◌-◌, Bool, true, false, ◌||◌, ◌++◌, Option, none, some, replicate, if◌then◌else◌, ltb,
  ◌==◌, ite,
}
use rul_checker.Run.{panic}
use rul_checker.State.{M, ◌>>=◌, ◌>>◌, skip, pure, lift, write}
use rul_checker.Rustc.Mir.{Place}
use rul_checker.Ownership.{OwnershipLayout, RustBv}
use rul_checker.Bits.{ownership_layout_to_rustbv, rustbv_merge, rustbv_to_int}
use rul_checker.TypeVisitor.{TyWithIndex, get_priority}
use rul_checker.Layout.{generate_ptr_layout}
use rul_checker.Slice.{
  init, is_init, is_unsupported, extract_var, is_untainted, TyWithIndex-discrete,
}
use rul_checker.Z3.{Name}
use rul_checker.Flow.{
  codes, new_local_name, Cx, St, var, len, ty, layout, taint, set_var, set_ty, set_layout,
  assert_both, eq, handle_intro_var_unsupported, handle_taint, ty_of_place, ty_with_index,
}

module _ (cx : Cx) where
  open cx use {tcx, z3, body, tcx.{Ty, Ty-discrete}, z3.{BV, Formula}}

  abbrev pub zeros : ℕ → BV
  zeros w = z3.from_u64 0 w

  -- `bv & mask`, where the mask has `n` ones but for a zero at the field.
  unfoldable pub clear_field : BV → ℕ → ℕ → M (St cx) BV
  clear_field bv i n = do
    mask ← lift (write (replicate n true) i false)
    pure (z3.bvand bv (z3.from_u64 (rustbv_to_int mask) n))

  -- The bits of `bv` above the field, the one new bit, and the bits below: `n - 1` is a panic at 0.
  unfoldable pub splice_field : BV → ℕ → ℕ → BV → M (St cx) BV
  splice_field bv i n bit =
      let upper = (if ltb i (n - 1) then z3.concat (z3.extract bv (n - 1) (suc i)) bit else bit) in
      let whole = (if ltb 0 i then z3.concat upper (z3.extract bv (i - 1) 0) else upper) in
      if n == 0 then lift panic else pure whole

  -- The bit of the field, at the width of the layout.
  unfoldable pub repeat_field : BV → ℕ → ℕ → BV
  repeat_field bv i n =
      if ltb 1 n then z3.sign_ext (z3.extract bv i i) (n - 1) else z3.extract bv i i

  -- Which fields of the left side may own: its layout, and its pointers where the source is tainted.
  unfoldable pub field_mask : ℕ → Ty → Option ℕ → OwnershipLayout → M (St cx) RustBv
  field_mask ru t variant l = do
    tr ← taint cx ru
    if is_untainted tr then pure (ownership_layout_to_rustbv l) else (do
      ptrs ← lift (generate_ptr_layout tcx t variant)
      lift (rustbv_merge (ownership_layout_to_rustbv l) ptrs))

  abbrev pub give_up_both : ℕ → ℕ → M (St cx) (Unit {0})
  give_up_both lu ru = do handle_intro_var_unsupported cx lu; handle_intro_var_unsupported cx ru

  -- The guards at the head of every assignment handler.
  abbrev pub when_both : ℕ → ℕ → M (St cx) (Unit {0}) → M (St cx) (Unit {0})
  when_both lu ru k = do
    lv ← var cx lu
    rv ← var cx ru
    if is_unsupported lv || is_unsupported rv
        then give_up_both lu ru
        else if is_init rv
        then k
        else skip

  -- `self.icx_slice().var()[u].extract()`
  abbrev pub ori_bv : ℕ → M (St cx) BV
  ori_bv u = do v ← var cx u; lift (extract_var v)

  -- A local that is assigned again must own nothing before.
  abbrev pub assert_zero : ℕ → M (St cx) (Unit {0})
  assert_zero lu = do
    l_ori ← ori_bv lu
    llen ← len cx lu
    f ← eq cx l_ori (zeros llen)
    assert_both cx f

  abbrev same_ty : TyWithIndex Ty → TyWithIndex Ty → Bool
  same_ty a b = ite (TyWithIndex-discrete Ty-discrete a b) true false

  -- `y = x`: `none` is an early return, else whether this constructs the left side.
  unfoldable pub prepare_whole : ℕ → ℕ → Place Ty → M (St cx) (Option Bool)
  prepare_whole lu ru rplace = do
    lv ← var cx lu
    if is_init lv
        then (do
          lt ← ty cx lu
          rt ← ty cx ru
          if same_ty lt rt
              then (do assert_zero lu; pure (some false))
              else (do give_up_both lu ru; pure none))
        else (do
          let r_place_ty = ty_of_place cx rplace
          t ← ty_with_index cx r_place_ty.ty r_place_ty.variant_index
          if get_priority t == 0
              then (do give_up_both lu ru; pure none)
              else if get_priority t == 1
              then pure none
              else (do
                rt ← ty cx ru
                set_ty cx lu rt
                l ← layout cx ru
                set_layout cx lu l
                pure (some true)))

  -- `y = x.f`: the types are not compared, and the left side takes those of the field.
  unfoldable pub prepare_from_field : ℕ → ℕ → Place Ty → OwnershipLayout → M (St cx) (Option Bool)
  prepare_from_field lu ru rplace l = do
    lv ← var cx lu
    if is_init lv then (do assert_zero lu; pure (some false)) else (do
      let r_place_ty = ty_of_place cx rplace
      t ← ty_with_index cx r_place_ty.ty r_place_ty.variant_index
      if get_priority t == 0
          then (do give_up_both lu ru; pure none)
          else if get_priority t == 1
          then pure none
          else (do set_ty cx lu t; set_layout cx lu l; pure (some true)))

  -- `y.f = x`: the field must own nothing before (but for an argument), or the whole is constructed
  -- as zero; returns what the left side was.
  unfoldable pub prepare_to_field :
      ℕ → ℕ → ℕ → Ty → Option ℕ → OwnershipLayout → ℕ → ℕ → M (St cx) BV
  prepare_to_field lu i llen l_local_ty disc l bidx sidx = do
    lv ← var cx lu
    if is_init lv
        then (do
          l_ori ← lift (extract_var lv)
          if ltb body.arg_count lu
              then (do f ← eq cx (z3.extract l_ori i i) (zeros 1); assert_both cx f; pure l_ori)
              else pure l_ori)
        else (do
          let name = new_local_name lu bidx sidx ++ codes "_ctor_asgn"
          f ← eq cx (z3.new_const name llen) (zeros llen)
          assert_both cx f
          t ← ty_with_index cx l_local_ty disc
          set_ty cx lu t
          set_layout cx lu l
          pure (zeros llen))

  -- The name of the left side at this program point.
  unfoldable pub l_name : Bool → ℕ → ℕ → ℕ → Name
  l_name is_ctor lu bidx sidx =
      if is_ctor
      then new_local_name lu bidx sidx ++ codes "_ctor_asgn"
      else new_local_name lu bidx sidx

  -- The new bit vectors take the place of the old, and the taint goes along.
  abbrev pub commit : ℕ → BV → ℕ → BV → M (St cx) (Unit {0})
  commit lu l_new ru r_new = do
    set_var cx lu (init l_new)
    set_var cx ru (init r_new)
    handle_taint cx lu ru
