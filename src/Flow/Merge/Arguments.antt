-- ===== src/Flow/Merge/Arguments.antt =====
-- The arguments of a body at the start of its first block.
use rul_checker.Prelude.{
  ℕ, ◌≤◌, ◌≡◌, sym, ◌∙◌, ◌↔◌, Bool, true, ◌∷◌, ◌++◌, Option, none, some, map, get_elem?, set,
  length, arith, get_elem?-set-some,
}
use rul_checker.Run.{ret}
use rul_checker.Rustc.{TyKind}
use rul_checker.Ownership.{OwnershipLayoutResult, is_owned}
use rul_checker.Bits.{ownership_layout_to_rustbv, rustbv_to_int}
use rul_checker.Bits.Layouts.{to_bits-layout}
use rul_checker.TypeVisitor.{TyWithIndex, new_ty}
use rul_checker.Layout.{extract_default_ty_layout}
use rul_checker.Layout.Owned.{extract_default_ty_layout-IsSound}
use rul_checker.Slice.{IntroVar, init}
use rul_checker.Z3.{Laws}
use rul_checker.Flow.{Cx, St, codes, new_local_name}
use rul_checker.Flow.Meaning.{Models, equated}
use rul_checker.Flow.Merge.{init_arg, Sl}

module _ (cx : Cx) (L : Laws cx.z3) (s : St cx) (sl : Sl cx) (idx : ℕ) (t : cx.tcx.Ty)
    (info : ℕ × TyKind cx.tcx.Ty × Option ℕ × Bool) (own : OwnershipLayoutResult)
    (v : IntroVar cx.z3.BV) (k : ℕ) (u : TyWithIndex cx.tcx.Ty)
    (decl : get_elem? cx.body.local_decls idx ≡ some t)
    (known : new_ty (cx.tcx.kind t) none ≡ ret (some info))
    (computed : extract_default_ty_layout cx.tcx cx.adt_owner cx.fuel t none ≡ ret own)
    (owning : own.owned_flag ≡ true) (small : length own.layout ≤ 64)
    (var_at : get_elem? sl.var idx ≡ some v) (len_at : get_elem? sl.len idx ≡ some k)
    (ty_at : get_elem? sl.ty idx ≡ some u) where
  open cx use {z3.{BV, new_const, from_u64}}
  open L use {Model, bits}

  -- The bit vector of the argument.
  abbrev pub initial : BV
  initial = new_const (new_local_name idx 0 0 ++ codes "_arg_init") (length own.layout)

  -- An argument of a known type with a computed default layout of up to 64 fields, some of them owned,
  -- is initialised at its length and type; the models are those of before in which it owns just what
  -- its layout owns.
  pub init_arg-owns :
      (s' : St cx) × (sl' : Sl cx) × (init_arg cx sl idx s ≡ ret (sl', s'))
      × (get_elem? sl'.var idx ≡ some (init initial))
      × (get_elem? sl'.len idx ≡ some (length own.layout))
      × (get_elem? sl'.ty idx ≡ some (some info))
      × ((m : Model)
          → Models cx L m s'.solver
            ↔ (Models cx L m s.solver × (bits m initial ≡ map is_owned own.layout)))
  unfolding init_arg
  init_arg-owns =
      let n = length own.layout in
      let int = rustbv_to_int (ownership_layout_to_rustbv own.layout) in
      let settled =
        (extract_default_ty_layout-IsSound cx.tcx cx.adt_owner cx.fuel t none computed).0 in
      let (f, e, mean) =
        equated cx L initial (from_u64 int n)
          (L.width-new_const _ n ∙ sym (L.width-from_u64 int n)) in
      let value =
        λ (m : Model). L.bits-from_u64 m int n ∙ to_bits-layout own.layout settled small in
      (
        record s { goal = f ∷ s.goal; solver = f ∷ s.solver },
        record sl {
          var = set sl.var idx (init initial);
          len = set sl.len idx n;
          ty = set sl.ty idx (some info);
        },
        ground arith,
        get_elem?-set-some sl.var idx (init initial) var_at,
        get_elem?-set-some sl.len idx n len_at,
        get_elem?-set-some sl.ty idx (some info) ty_at,
        λ m. (λ h. (h.1, (mean m).0 h.0 ∙ value m), λ h. ((mean m).1 (h.1 ∙ sym (value m)), h.0)),
      )
