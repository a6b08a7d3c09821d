-- ===== src/Flow/Call.antt =====
-- `handle_call` of src/analysis/flow_analysis/intro_visitor.rs and its two tests, `check_fn_source`
-- and `check_fn_recovery`.
use rul_checker.Prelude.{
  ℕ, Bool, true, false, not, ◌&&◌, ◌||◌, List, [], ◌∷◌, ◌++◌, Option, none, some, if◌then◌else◌,
  ◌==◌, length,
}
use rul_checker.Run.{index, panic}
use rul_checker.State.{M, ◌>>=◌, ◌>>◌, skip, pure, lift, modify}
use rul_checker.Rustc.{is_adt, is_unsafe_ptr, is_region_ptr, PlaceTy}
use rul_checker.Rustc.Mir.{Place, Operand, copy, move, constant}
use rul_checker.Ownership.{owned, is_owned, OwnershipLayoutResult}
use rul_checker.Bits.{ownership_layout_to_rustbv, rustbv_merge, rustbv_to_int}
use rul_checker.TypeVisitor.{get_priority, contains, TyWithIndex}
use rul_checker.Layout.{generate_ptr_layout, is_place_containing_ptr}
use rul_checker.Projection.{extract_projection, index_needed}
use rul_checker.Slice.{
  init, is_init, is_unsupported, extract_var, is_untainted, taint_contains, taint_insert,
}
use rul_checker.Flow.{
  codes, new_local_name, Cx, St, var, len, taint, set_var, set_len, set_ty, set_layout, set_taint,
  assert_both, eq, handle_intro_var_unsupported, local_ty, ty_of_place, ty_with_index,
  default_layout,
}
use rul_checker.Flow.Terms.{zeros, splice_field, assert_zero}
use rul_checker.Flow.Assign.{needs_nothing}
use rul_checker.Flow.Drop.{handle_drop}

-- The `DefIndex` that the code takes for `std::mem::drop`.
abbrev drop_index : ℕ
drop_index = 2171

module _ (cx : Cx) where
  open cx use {z3, tcx, tcx.{Ty, kind, Ty-discrete}, z3.{BV, Formula, new_const, from_u64, extract}}

  -- fn(self) -> */&: the one argument is moved, owns memory, and a pointer comes back.
  unfoldable pub check_fn_source : List (Operand Ty) → Place Ty → M (St cx) Bool
  check_fn_source (move aplace ∷ []) dest =
      if not (is_place_containing_ptr tcx (ty_of_place cx dest).ty) then pure false else (do
        let a = ty_of_place cx aplace
        own ← default_layout cx a.ty a.variant_index
        if own.owned_flag
            then (do modify (λ s. record s { taint_flag = true }); pure true)
            else pure false)
  check_fn_source _ dest = pure false

  recovered_args : TyWithIndex Ty → List (Operand Ty) → M (St cx) (List ℕ)
  recovered_args t [] = pure []
  recovered_args t (constant f ∷ args) = recovered_args t args
  recovered_args t (move a ∷ args) = do
    set ← taint cx a.local
    rest ← recovered_args t args
    pure (
        if not (is_untainted set) && taint_contains Ty-discrete set t then a.local ∷ rest else rest)
  recovered_args t (copy a ∷ args) = do
    set ← taint cx a.local
    rest ← recovered_args t args
    pure (
        if not (is_untainted set) && taint_contains Ty-discrete set t then a.local ∷ rest else rest)

  -- fn(*) -> Self: the arguments whose taint holds the returned type. The flag that the code pairs
  -- with them says that there is one.
  unfoldable pub check_fn_recovery : List (Operand Ty) → Place Ty → M (St cx) (List ℕ)
  unfolding recovered_args
  check_fn_recovery [] dest = pure []
  check_fn_recovery (arg ∷ args) dest = do
    let l = ty_of_place cx dest
    own ← default_layout cx l.ty l.variant_index
    if needs_nothing own
        then pure []
        else (do t ← ty_with_index cx l.ty l.variant_index; recovered_args t (arg ∷ args))

  -- a' = a, under the name of a passed parameter.
  pass_param : ℕ → BV → ℕ → ℕ → M (St cx) BV
  pass_param au a_ori alen bidx = do
    let a_new = new_const (new_local_name au bidx 0 ++ codes "_param_pass") alen
    update_a ← eq cx a_new a_ori
    assert_both cx update_a
    pure a_new

  -- A pointer that is passed as a whole: recovered, or a = 0 && a' = a.
  pass_ptr : Place Ty → BV → ℕ → List ℕ → ℕ → M (St cx) (Unit {0})
  pass_ptr aplace a_ori alen recovery bidx =
      let au = aplace.local in
      if contains recovery au then handle_drop cx aplace bidx true else (do
        a_non_owning ← eq cx a_ori (zeros cx alen)
        let a_new = new_const (new_local_name au bidx 0 ++ codes "_param_pass") alen
        update_a ← eq cx a_new a_ori
        assert_both cx a_non_owning
        assert_both cx update_a
        set_var cx au (init a_new))

  abbrev is_ptr : Ty → Bool
  is_ptr t = is_unsafe_ptr (kind t) || is_region_ptr (kind t)

  abbrev param_taint : Bool → ℕ → Place Ty → M (St cx) (Unit {0})
  param_taint source lu aplace =
      if source
      then (do
        set ← taint cx lu
        t ← ty_with_index cx (ty_of_place cx aplace).ty (ty_of_place cx aplace).variant_index
        set_taint cx lu (taint_insert Ty-discrete set t))
      else skip

  move_arg : Place Ty → Bool → List ℕ → ℕ → ℕ → M (St cx) (Unit {0})
  unfolding pass_ptr pass_param
  move_arg aplace source recovery lu bidx = do
    let au = aplace.local
    alen ← len cx au
    av ← var cx au
    if (alen == 0) || not (is_init av) then skip else (do
      a_ori ← lift (extract_var av)
      param_taint source lu aplace
      elim aplace.projection [
        | [] ↦
            if is_ptr (ty_of_place cx aplace).ty
            then pass_ptr aplace a_ori alen recovery bidx
            else handle_drop cx aplace bidx false
        | e ∷ es ↦
            if not (length es == 0)
            then handle_intro_var_unsupported cx au
            else if not (is_ptr (ty_of_place cx aplace).ty)
            then handle_drop cx aplace bidx false
            else if contains recovery au
            then handle_drop cx aplace bidx true
            else (do a_new ← pass_param au a_ori alen bidx; skip)
      ])

  copy_arg : Place Ty → List ℕ → ℕ → M (St cx) (Unit {0})
  unfolding pass_ptr pass_param
  copy_arg aplace recovery bidx = do
    let au = aplace.local
    alen ← len cx au
    av ← var cx au
    if (alen == 0) || not (is_init av) then skip else (do
      a_ori ← lift (extract_var av)
      elim aplace.projection [
        | [] ↦
            if is_ptr (ty_of_place cx aplace).ty
            then pass_ptr aplace a_ori alen recovery bidx
            else (do a_new ← pass_param au a_ori alen bidx; skip)
        | e ∷ es ↦
            if length es == 0
            then (do a_new ← pass_param au a_ori alen bidx; skip)
            else handle_intro_var_unsupported cx au
      ])

  call_args : List (Operand Ty) → Bool → List ℕ → ℕ → ℕ → M (St cx) (Unit {0})
  unfolding move_arg copy_arg
  call_args [] source recovery lu bidx = skip
  call_args (constant f ∷ args) source recovery lu bidx = call_args args source recovery lu bidx
  call_args (move a ∷ args) source recovery lu bidx = do
    move_arg a source recovery lu bidx
    call_args args source recovery lu bidx
  call_args (copy a ∷ args) source recovery lu bidx = do
    copy_arg a recovery bidx
    call_args args source recovery lu bidx

  -- What a returned value owns by default, with its pointers if it came from an owner.
  return_int : Bool → Ty → Option ℕ → OwnershipLayoutResult → M (St cx) ℕ
  return_int source t variant own =
      if source
      then (do
        ptrs ← lift (generate_ptr_layout tcx t variant)
        merged ← lift (rustbv_merge (ownership_layout_to_rustbv own.layout) ptrs)
        pure (rustbv_to_int merged))
      else pure (rustbv_to_int (ownership_layout_to_rustbv own.layout))

  -- The left side at a whole: `none` is an early return, else the suffix of the new name.
  prepare_return : ℕ → PlaceTy Ty → OwnershipLayoutResult → M (St cx) (Option Bool)
  prepare_return lu l own = do
    lv ← var cx lu
    if is_init lv then (do assert_zero cx lu; pure (some false)) else (do
      t ← ty_with_index cx l.ty l.variant_index
      if get_priority t == 0
          then (do handle_intro_var_unsupported cx lu; pure none)
          else if get_priority t == 1
          then pure none
          else (do set_ty cx lu t; set_layout cx lu own.layout; pure (some true)))

  return_whole : Place Ty → Bool → ℕ → M (St cx) (Unit {0})
  unfolding return_int prepare_return
  return_whole dest source bidx = do
    let lu = dest.local
    let l = ty_of_place cx dest
    own ← default_layout cx l.ty l.variant_index
    if needs_nothing own then skip else (do
      int_for_gen ← return_int source l.ty l.variant_index own
      ready ← prepare_return lu l own
      elim ready [
        | none ↦ skip
        | some is_ctor ↦ do
          let llen = length own.layout
          let suffix = (if is_ctor then codes "_ctor_fn" else codes "_cover_fn")
          let l_new = new_const (new_local_name lu bidx 0 ++ suffix) llen
          new_owning ← eq cx l_new (from_u64 int_for_gen llen)
          assert_both cx new_owning
          set_len cx lu llen
          set_var cx lu (init l_new)
      ])

  -- What the left side was, where the call returns into its field `i`.
  prepare_return_field : ℕ → ℕ → ℕ → Ty → OwnershipLayoutResult → ℕ → M (St cx) BV
  prepare_return_field lu i llen l_local_ty own bidx = do
    lv ← var cx lu
    if is_init lv
        then (do
          l_ori ← lift (extract_var lv)
          f ← eq cx (extract l_ori i i) (zeros cx 1)
          assert_both cx f
          pure l_ori)
        else (do
          f ← eq cx (new_const (new_local_name lu bidx 0 ++ codes "_ctor_fn") llen) (zeros cx llen)
          assert_both cx f
          t ← ty_with_index cx l_local_ty none
          set_ty cx lu t
          set_layout cx lu own.layout
          pure (zeros cx llen))

  return_field : Place Ty → Ty → Bool → ℕ → M (St cx) (Unit {0})
  unfolding prepare_return_field
  return_field dest l_local_ty source bidx = do
    let lu = dest.local
    own ← default_layout cx l_local_ty none
    if needs_nothing own then skip else (do
      llen ← len cx lu
      i ← lift (index_needed (extract_projection dest))
      l_ori ← prepare_return_field lu i llen l_local_ty own bidx
      let l_new = new_const (new_local_name lu bidx 0) llen
      o ← (if source then pure owned else lift (index own.layout i))
      let update_field = from_u64 (if is_owned o then 1 else 0) 1
      final_bv ← splice_field cx l_ori i llen update_field
      updated ← eq cx l_new final_bv
      assert_both cx updated
      set_len cx lu (length own.layout)
      set_var cx lu (init l_new))

  return_value : Place Ty → Bool → ℕ → M (St cx) (Unit {0})
  unfolding return_whole return_field
  return_value dest source bidx = do
    let lu = dest.local
    lv ← var cx lu
    if is_unsupported lv then handle_intro_var_unsupported cx lu else (do
      l_local_ty ← local_ty cx lu
      elim dest.projection [
        | [] ↦ return_whole dest source bidx
        | e ∷ es ↦
            if length es == 0
            then return_field dest l_local_ty source bidx
            else handle_intro_var_unsupported cx lu
      ])

  general_call : List (Operand Ty) → Place Ty → ℕ → M (St cx) (Unit {0})
  unfolding call_args return_value
  general_call args dest bidx = do
    source ← check_fn_source args dest
    recovery ← check_fn_recovery args dest
    call_args args source recovery dest.local bidx
    return_value dest source bidx

  -- A call of `drop` on a value, where the destination is of an ADT, is a drop.
  drop_call : List (Operand Ty) → Place Ty → ℕ → M (St cx) (Unit {0})
  unfolding general_call
  drop_call [] dest bidx = lift panic
  drop_call (move aplace ∷ args) dest bidx =
      if is_adt (kind (ty_of_place cx dest).ty)
      then handle_drop cx aplace bidx false
      else general_call (move aplace ∷ args) dest bidx
  drop_call (arg ∷ args) dest bidx = general_call (arg ∷ args) dest bidx

  unfoldable pub handle_call : Operand Ty → List (Operand Ty) → Place Ty → ℕ → M (St cx) (Unit {0})
  unfolding drop_call
  handle_call (constant (some id)) args dest bidx =
      if id == drop_index then drop_call args dest bidx else general_call args dest bidx
  handle_call func args dest bidx = general_call args dest bidx
