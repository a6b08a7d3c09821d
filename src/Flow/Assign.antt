-- ===== src/Flow/Assign.antt =====
-- The assignments `y = x`, `y = move x`, `y = x.f` and `y = move x.f` of
-- src/analysis/flow_analysis/intro_visitor.rs.
pub mod Ready
pub mod Transfer
pub mod FromField
use rul_checker.Prelude.{
  ℕ, Bool, true, false, not, ◌||◌, List, [], ◌∷◌, Option, none, some, if◌then◌else◌, ◌==◌, length,
}
use rul_checker.State.{M, ◌>>=◌, ◌>>◌, skip, pure, lift}
use rul_checker.Rustc.{PlaceTy}
use rul_checker.Rustc.Mir.{Place}
use rul_checker.Ownership.{OwnershipLayout, OwnershipLayoutResult}
use rul_checker.Bits.{rustbv_to_int}
use rul_checker.Projection.{extract_projection, has_field, index_needed, ProjectionSupport}
use rul_checker.Flow.{
  new_local_name, Cx, St, len, set_len, assert_both, eq, ty_of_place, default_layout,
}
use rul_checker.Flow.Terms.{
  zeros, clear_field, repeat_field, field_mask, give_up_both, when_both, ori_bv, prepare_whole,
  prepare_from_field, l_name, commit,
}

-- `default_ownership.is_empty()`
abbrev pub is_empty : OwnershipLayoutResult → Bool
is_empty r = elim r.layout [ [] ↦ true | _ ∷ _ ↦ false ]

-- `!default_ownership.get_requirement() || default_ownership.is_empty()`
abbrev pub needs_nothing : OwnershipLayoutResult → Bool
needs_nothing r = not r.requirement || is_empty r

module _ (cx : Cx) where
  open cx use {z3, tcx.{Ty}, z3.{BV, Formula, bool_and, bool_or, new_const}}

  -- (r' = r && l' = 0) || (l' = r && r' = 0)
  unfoldable pub copy_owning : BV → BV → BV → ℕ → ℕ → M (St cx) (Unit {0})
  copy_owning l_new r_new r_ori llen rlen = do
    r_owning ← eq cx r_new r_ori
    l_non_owning ← eq cx l_new (zeros cx llen)
    l_owning ← eq cx l_new r_ori
    r_non_owning ← eq cx r_new (zeros cx rlen)
    assert_both cx (bool_or (bool_and r_owning l_non_owning) (bool_and l_owning r_non_owning))

  -- r' = 0 && l' = r
  unfoldable pub move_owning : BV → BV → BV → ℕ → M (St cx) (Unit {0})
  move_owning l_new r_new r_ori rlen = do
    r_non_owning ← eq cx r_new (zeros cx rlen)
    l_owning ← eq cx l_new r_ori
    assert_both cx r_non_owning
    assert_both cx l_owning

  unfoldable pub handle_copy : Place Ty → Place Ty → ℕ → ℕ → M (St cx) (Unit {0})
  unfolding copy_owning
  handle_copy lplace rplace bidx sidx =
      let lu = lplace.local in
      let ru = rplace.local in
      when_both cx lu ru (do
        rlen ← len cx ru
        if rlen == 0 then skip else (do
          r_ori ← ori_bv cx ru
          ready ← prepare_whole cx lu ru rplace
          elim ready [
            | none ↦ skip
            | some is_ctor ↦ do
              set_len cx lu rlen
              let l_new = new_const (l_name cx is_ctor lu bidx sidx) rlen
              let r_new = new_const (new_local_name ru bidx sidx) rlen
              copy_owning l_new r_new r_ori rlen rlen
              commit cx lu l_new ru r_new
          ]))

  unfoldable pub handle_move : Place Ty → Place Ty → ℕ → ℕ → M (St cx) (Unit {0})
  unfolding move_owning
  handle_move lplace rplace bidx sidx =
      let lu = lplace.local in
      let ru = rplace.local in
      when_both cx lu ru (do
        rlen ← len cx ru
        if rlen == 0 then skip else (do
          r_ori ← ori_bv cx ru
          ready ← prepare_whole cx lu ru rplace
          elim ready [
            | none ↦ skip
            | some is_ctor ↦ do
              set_len cx lu rlen
              let l_new = new_const (l_name cx is_ctor lu bidx sidx) rlen
              let r_new = new_const (new_local_name ru bidx sidx) rlen
              move_owning l_new r_new r_ori rlen
              commit cx lu l_new ru r_new
          ]))

  -- l' = extend(r.f) && r.f' = 0, as the two equations.
  unfoldable pub from_field_terms :
      BV → BV → BV → ℕ → ℕ → ℕ → ℕ → PlaceTy Ty → OwnershipLayout → M (St cx) (Formula × Formula)
  from_field_terms l_new r_new r_ori llen rlen i ru rpj_ty l = do
    mask ← field_mask cx ru rpj_ty.ty rpj_ty.variant_index l
    let mask_bv = z3.from_u64 (rustbv_to_int mask) llen
    l_extend_owning ← eq cx l_new (z3.bvand mask_bv (repeat_field cx r_ori i llen))
    cleared ← clear_field cx r_ori i rlen
    rpj_non_owning ← eq cx r_new cleared
    pure (l_extend_owning, rpj_non_owning)

  -- (r' = r && l' = 0) || (l' = extend(r.f) && r.f' = 0)
  unfoldable pub copy_from_field_owning :
      BV → BV → BV → ℕ → ℕ → ℕ → ℕ → PlaceTy Ty → OwnershipLayout → M (St cx) (Unit {0})
  unfolding from_field_terms
  copy_from_field_owning l_new r_new r_ori llen rlen i ru rpj_ty l = do
    r_f_owning ← eq cx r_new r_ori
    l_non_owning ← eq cx l_new (zeros cx llen)
    terms ← from_field_terms l_new r_new r_ori llen rlen i ru rpj_ty l
    assert_both cx (bool_or (bool_and r_f_owning l_non_owning) (bool_and terms.0 terms.1))

  unfoldable pub move_from_field_owning :
      BV → BV → BV → ℕ → ℕ → ℕ → ℕ → PlaceTy Ty → OwnershipLayout → M (St cx) (Unit {0})
  unfolding from_field_terms
  move_from_field_owning l_new r_new r_ori llen rlen i ru rpj_ty l = do
    terms ← from_field_terms l_new r_new r_ori llen rlen i ru rpj_ty l
    assert_both cx terms.0
    assert_both cx terms.1

  unfoldable pub handle_copy_from_field : Place Ty → Place Ty → ℕ → ℕ → M (St cx) (Unit {0})
  unfolding handle_copy copy_from_field_owning
  handle_copy_from_field lplace rplace bidx sidx =
      let lu = lplace.local in
      let ru = rplace.local in
      let rpj_ty = ty_of_place cx rplace in
      let rpj = extract_projection rplace in
      when_both cx lu ru (do
        rlen ← len cx ru
        if rlen == 0
            then skip
            else if rpj.unsupport
            then give_up_both cx lu ru
            else if not (has_field rpj)
            then handle_copy lplace rplace bidx sidx
            else (do
              i ← lift (index_needed rpj)
              own ← default_layout cx rpj_ty.ty rpj_ty.variant_index
              if needs_nothing own then skip else (do
                r_ori ← ori_bv cx ru
                ready ← prepare_from_field cx lu ru rplace own.layout
                elim ready [
                  | none ↦ skip
                  | some is_ctor ↦ do
                    let llen = length own.layout
                    set_len cx lu llen
                    let l_new = new_const (l_name cx is_ctor lu bidx sidx) llen
                    let r_new = new_const (new_local_name ru bidx sidx) rlen
                    copy_from_field_owning l_new r_new r_ori llen rlen i ru rpj_ty own.layout
                    commit cx lu l_new ru r_new
                ])))

  unfoldable pub handle_move_from_field : Place Ty → Place Ty → ℕ → ℕ → M (St cx) (Unit {0})
  unfolding handle_move move_from_field_owning
  handle_move_from_field lplace rplace bidx sidx =
      let lu = lplace.local in
      let ru = rplace.local in
      let rpj_ty = ty_of_place cx rplace in
      let rpj = extract_projection rplace in
      when_both cx lu ru (
        if rpj.unsupport
        then give_up_both cx lu ru
        else if not (has_field rpj)
        then handle_move lplace rplace bidx sidx
        else (do
          i ← lift (index_needed rpj)
          own ← default_layout cx rpj_ty.ty rpj_ty.variant_index
          if needs_nothing own then skip else (do
            rlen ← len cx ru
            if rlen == 0 then skip else (do
              r_ori ← ori_bv cx ru
              ready ← prepare_from_field cx lu ru rplace own.layout
              elim ready [
                | none ↦ skip
                | some is_ctor ↦ do
                  let llen = length own.layout
                  set_len cx lu llen
                  let l_new = new_const (l_name cx is_ctor lu bidx sidx) llen
                  let r_new = new_const (new_local_name ru bidx sidx) rlen
                  move_from_field_owning l_new r_new r_ori llen rlen i ru rpj_ty own.layout
                  commit cx lu l_new ru r_new
              ]))))
