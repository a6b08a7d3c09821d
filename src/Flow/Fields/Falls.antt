-- ===== src/Flow/Fields/Falls.antt =====
-- The arm of `handle_move_field_to_field` that goes on after its delegate.
use rul_checker.Prelude.{ℕ, ◌≡◌, true, false, [], Option, some, get_elem?, arith}
use rul_checker.Run.{ret, panic}
use rul_checker.Rustc.Mir.{Place}
use rul_checker.Projection.{extract_projection, has_field}
use rul_checker.Slice.{IntroVar, init, is_unsupported}
use rul_checker.Flow.{Cx, St}
use rul_checker.Flow.Fields.{handle_move_to_field, handle_move_field_to_field, field_to_field}

module _ (cx : Cx) where
  open cx use {z3, body, tcx.{Ty}, z3.{BV}}

  -- Where both projections are followed, the left one has a field and the right one has none, the right
  -- side is initialised and the left one not given up, the handler panics as soon as the assignment
  -- into the field has been carried out by `handle_move_to_field`.
  pub handle_move_field_to_field-panic :
      (s s' : St cx) (lplace rplace : Place Ty) (disc : Option ℕ) (bidx sidx : ℕ) (lv : IntroVar BV)
      (x : BV) (t : Ty)
      → get_elem? s.slice.var lplace.local ≡ some lv
      → is_unsupported lv ≡ false
      → get_elem? s.slice.var rplace.local ≡ some (init x)
      → get_elem? body.local_decls lplace.local ≡ some t
      → (extract_projection rplace).unsupport ≡ false
      → (extract_projection lplace).unsupport ≡ false
      → (extract_projection rplace).pf_vec ≡ []
      → has_field (extract_projection lplace) ≡ true
      → handle_move_to_field cx lplace rplace disc bidx sidx s ≡ ret (tt, s')
      → handle_move_field_to_field cx lplace rplace disc bidx sidx s ≡ panic
  unfolding handle_move_field_to_field field_to_field
  handle_move_field_to_field-panic s s' lplace rplace disc bidx sidx lv x t a b c d e f g h done =
      ground arith
