-- ===== src/Flow/Fields.antt =====
-- The assignments into a field, `y.f = x` and `y.f = x.f`, copied or moved, of
-- src/analysis/flow_analysis/intro_visitor.rs.
pub mod IntoField
pub mod Between
pub mod Falls
use rul_checker.Prelude.{ℕ, ◌&&◌, Option, none, some, if◌then◌else◌, ◌==◌, length}
use rul_checker.State.{M, ◌>>=◌, ◌>>◌, skip, pure, lift}
use rul_checker.Rustc.Mir.{Place}
use rul_checker.Projection.{
  extract_projection, has_field, has_downcast, index_needed, ProjectionSupport,
}
use rul_checker.Flow.{
  new_local_name, Cx, St, len, set_len, assert_both, eq, local_ty, ty_with_index, default_layout,
}
use rul_checker.Flow.Terms.{
  zeros, clear_field, splice_field, give_up_both, when_both, ori_bv, prepare_to_field, commit,
}
use rul_checker.Flow.Assign.{
  needs_nothing, handle_copy, handle_move, handle_copy_from_field, handle_move_from_field,
}

-- What the match on `(has_field, has_downcast)` decides.
pub data Target : Type 0 where
  whole none_at_all : Target
  field_of : Option ℕ → Target

module _ (cx : Cx) where
  open cx use {z3, tcx.{Ty}, z3.{BV, Formula, bool_and, bool_or, new_const, bvredor, extract}}

  -- Field 0 of a variant with one field stands for the whole; a bare downcast is not followed.
  to_field_target : Ty → ProjectionSupport Ty → Option ℕ → M (St cx) Target
  to_field_target l_local_ty lpj disc =
      if has_field lpj
      then (if has_downcast lpj
          then (do
            t ← ty_with_index cx l_local_ty lpj.downcast
            i ← lift (index_needed lpj)
            elim t [
              | none ↦ pure none_at_all
              | some info ↦
                  if (i == 0) && (info.0 == 1) then pure whole else pure (field_of lpj.downcast)
            ])
          else pure (field_of disc))
      else if has_downcast lpj
      then pure none_at_all
      else pure whole

  -- (r' = r && l.f' = 0) || (r' = 0 && l.f' = shrink(r))
  pub copy_to_field_owning : BV → BV → BV → BV → ℕ → ℕ → ℕ → M (St cx) (Unit {0})
  copy_to_field_owning l_new r_new l_ori r_ori llen rlen i = do
    r_owning ← eq cx r_new r_ori
    cleared ← clear_field cx l_ori i llen
    lpj_non_owning ← eq cx l_new cleared
    r_non_owning ← eq cx r_new (zeros cx rlen)
    final_bv ← splice_field cx l_ori i llen (bvredor r_ori)
    lpj_shrink_owning ← eq cx l_new final_bv
    assert_both cx
        (bool_or (bool_and r_owning lpj_non_owning) (bool_and r_non_owning lpj_shrink_owning))

  -- r' = 0 && l.f' = shrink(r)
  pub move_to_field_owning : BV → BV → BV → BV → ℕ → ℕ → ℕ → M (St cx) (Unit {0})
  move_to_field_owning l_new r_new l_ori r_ori llen rlen i = do
    r_non_owning ← eq cx r_new (zeros cx rlen)
    final_bv ← splice_field cx l_ori i llen (bvredor r_ori)
    lpj_shrink_owning ← eq cx l_new final_bv
    assert_both cx r_non_owning
    assert_both cx lpj_shrink_owning

  -- The part of both handlers below the choice of the target.
  pub to_field :
      (BV → BV → BV → BV → ℕ → ℕ → ℕ → M (St cx) (Unit {0}))
      → Place Ty
      → Place Ty
      → Ty
      → ProjectionSupport Ty
      → Option ℕ
      → ℕ
      → ℕ
      → M (St cx) (Unit {0})
  to_field owning lplace rplace l_local_ty lpj disc bidx sidx = do
    let lu = lplace.local
    let ru = rplace.local
    i ← lift (index_needed lpj)
    own ← default_layout cx l_local_ty disc
    if needs_nothing own then skip else (do
      let llen = length own.layout
      set_len cx lu llen
      rlen ← len cx ru
      if rlen == 0 then skip else (do
        r_ori ← ori_bv cx ru
        l_ori ← prepare_to_field cx lu i llen l_local_ty disc own.layout bidx sidx
        let l_new = new_const (new_local_name lu bidx sidx) llen
        let r_new = new_const (new_local_name ru bidx sidx) rlen
        owning l_new r_new l_ori r_ori llen rlen i
        commit cx lu l_new ru r_new))

  unfoldable pub handle_copy_to_field :
      Place Ty → Place Ty → Option ℕ → ℕ → ℕ → M (St cx) (Unit {0})
  unfolding to_field_target to_field copy_to_field_owning
  handle_copy_to_field lplace rplace disc bidx sidx =
      let lu = lplace.local in
      let ru = rplace.local in
      let lpj = extract_projection lplace in
      when_both cx lu ru (do
        l_local_ty ← local_ty cx lu
        if lpj.unsupport then give_up_both cx lu ru else (do
          target ← to_field_target l_local_ty lpj disc
          elim target [
            | whole ↦ handle_copy cx lplace rplace bidx sidx
            | none_at_all ↦ skip
            | field_of disc' ↦
                to_field copy_to_field_owning lplace rplace l_local_ty lpj disc' bidx sidx
          ]))

  unfoldable pub handle_move_to_field :
      Place Ty → Place Ty → Option ℕ → ℕ → ℕ → M (St cx) (Unit {0})
  unfolding to_field_target to_field move_to_field_owning
  handle_move_to_field lplace rplace disc bidx sidx =
      let lu = lplace.local in
      let ru = rplace.local in
      let lpj = extract_projection lplace in
      when_both cx lu ru (do
        l_local_ty ← local_ty cx lu
        if lpj.unsupport then give_up_both cx lu ru else (do
          target ← to_field_target l_local_ty lpj disc
          elim target [
            | whole ↦ handle_move cx lplace rplace bidx sidx
            | none_at_all ↦ skip
            | field_of disc' ↦
                to_field move_to_field_owning lplace rplace l_local_ty lpj disc' bidx sidx
          ]))

  -- r.f' = 0 && l.f' = r.f, as the two equations.
  pub field_terms : BV → BV → BV → BV → ℕ → ℕ → ℕ → ℕ → M (St cx) (Formula × Formula)
  field_terms l_new r_new l_ori r_ori llen rlen li ri = do
    cleared ← clear_field cx r_ori ri rlen
    rpj_non_owning ← eq cx r_new cleared
    final_bv ← splice_field cx l_ori li llen (extract r_ori ri ri)
    lpj_owning ← eq cx l_new final_bv
    pure (rpj_non_owning, lpj_owning)

  -- (r.f' = 0 && l.f' = r.f) || (l.f' = 0 && r' = r)
  pub copy_field_owning : BV → BV → BV → BV → ℕ → ℕ → ℕ → ℕ → M (St cx) (Unit {0})
  unfolding field_terms
  copy_field_owning l_new r_new l_ori r_ori llen rlen li ri = do
    terms ← field_terms l_new r_new l_ori r_ori llen rlen li ri
    cleared ← clear_field cx l_ori li llen
    lpj_non_owning ← eq cx l_new cleared
    rpj_owning ← eq cx r_new r_ori
    assert_both cx (bool_or (bool_and terms.0 terms.1) (bool_and lpj_non_owning rpj_owning))

  pub move_field_owning : BV → BV → BV → BV → ℕ → ℕ → ℕ → ℕ → M (St cx) (Unit {0})
  unfolding field_terms
  move_field_owning l_new r_new l_ori r_ori llen rlen li ri = do
    terms ← field_terms l_new r_new l_ori r_ori llen rlen li ri
    assert_both cx terms.0
    assert_both cx terms.1

  -- The part of both handlers where each side has a field.
  pub field_to_field :
      (BV → BV → BV → BV → ℕ → ℕ → ℕ → ℕ → M (St cx) (Unit {0}))
      → Place Ty
      → Place Ty
      → Ty
      → Option ℕ
      → ℕ
      → ℕ
      → M (St cx) (Unit {0})
  field_to_field owning lplace rplace l_local_ty disc bidx sidx = do
    let lu = lplace.local
    let ru = rplace.local
    ri ← lift (index_needed (extract_projection rplace))
    li ← lift (index_needed (extract_projection lplace))
    own ← default_layout cx l_local_ty disc
    if needs_nothing own then skip else (do
      let llen = length own.layout
      rlen ← len cx ru
      set_len cx lu llen
      if rlen == 0 then skip else (do
        r_ori ← ori_bv cx ru
        l_ori ← prepare_to_field cx lu li llen l_local_ty disc own.layout bidx sidx
        let l_new = new_const (new_local_name lu bidx sidx) llen
        let r_new = new_const (new_local_name ru bidx sidx) rlen
        owning l_new r_new l_ori r_ori llen rlen li ri
        commit cx lu l_new ru r_new))

  unfoldable pub handle_copy_field_to_field :
      Place Ty → Place Ty → Option ℕ → ℕ → ℕ → M (St cx) (Unit {0})
  unfolding handle_copy_to_field field_to_field copy_field_owning
  handle_copy_field_to_field lplace rplace disc bidx sidx =
      let lu = lplace.local in
      let ru = rplace.local in
      let rpj = extract_projection rplace in
      let lpj = extract_projection lplace in
      when_both cx lu ru (do
        l_local_ty ← local_ty cx lu
        if rpj.unsupport
            then give_up_both cx lu ru
            else if lpj.unsupport
            then give_up_both cx lu ru
            else if has_field rpj
            then (if has_field lpj
                then field_to_field copy_field_owning lplace rplace l_local_ty disc bidx sidx
                else handle_copy_from_field cx lplace rplace bidx sidx)
            else if has_field lpj
            then handle_copy_to_field lplace rplace disc bidx sidx
            else handle_copy cx lplace rplace bidx sidx)

  -- The case of a field on the left side alone does not return: it goes on to the field of the right.
  unfoldable pub handle_move_field_to_field :
      Place Ty → Place Ty → Option ℕ → ℕ → ℕ → M (St cx) (Unit {0})
  unfolding handle_move_to_field field_to_field move_field_owning
  handle_move_field_to_field lplace rplace disc bidx sidx =
      let lu = lplace.local in
      let ru = rplace.local in
      let rpj = extract_projection rplace in
      let lpj = extract_projection lplace in
      when_both cx lu ru (do
        l_local_ty ← local_ty cx lu
        if rpj.unsupport
            then give_up_both cx lu ru
            else if lpj.unsupport
            then give_up_both cx lu ru
            else if has_field rpj
            then (if has_field lpj
                then field_to_field move_field_owning lplace rplace l_local_ty disc bidx sidx
                else handle_move_from_field cx lplace rplace bidx sidx)
            else if has_field lpj
            then (do
              handle_move_to_field lplace rplace disc bidx sidx
              field_to_field move_field_owning lplace rplace l_local_ty disc bidx sidx)
            else handle_move cx lplace rplace bidx sidx)
