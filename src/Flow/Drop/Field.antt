-- ===== src/Flow/Drop/Field.antt =====
-- What the drop of a field asserts.
use rul_checker.Prelude.{
  ℕ, zero, suc, ◌≡◌, sym, ap, ◌∙◌, ◌↔◌, Bool, false, not, List, [], ◌∷◌, some, map, get_elem?, set,
  get_or, length, arith, if◌then◌else◌, lt-length_of_get_elem?, get_elem?-set-some, ◌++◌,
  Bool-cases, inl, inr,
}
use rul_checker.Run.{ret}
use rul_checker.Rustc.Mir.{Place}
use rul_checker.Ownership.{OwnershipLayout, RawTypeOwner, is_owned}
use rul_checker.Bits.{reverse_ownership_layout_to_rustbv}
use rul_checker.Bits.Layouts.{IsSettled}
use rul_checker.Z3.{Laws}
use rul_checker.Projection.{extract_projection}
use rul_checker.Slice.{init}
use rul_checker.Flow.{Cx, St, codes, new_local_name}
use rul_checker.Flow.Terms.{zeros}
use rul_checker.Flow.Meaning.{Models, equated, bits-zeros, splice_field-bits}
use rul_checker.Flow.Drop.{handle_drop, drop_field}
use rul_checker.Flow.Drop.Freed.{reverse-mask}

get_elem?-map :
    {A B : Type 0} (f : A → B) (xs : List A) (i : ℕ) {x : A}
    → get_elem? xs i ≡ some x
    → get_elem? (map f xs) i ≡ some (f x)
get_elem?-map f [] i h = cc
get_elem?-map f (x ∷ xs) zero h = ap some (ap f cc)
get_elem?-map f (x ∷ xs) (suc i) h = get_elem?-map f xs i h

module _ (cx : Cx) (L : Laws cx.z3) (s : St cx) (p : Place cx.tcx.Ty) (t : cx.tcx.Ty) (i bidx n : ℕ)
    (x : cx.z3.BV) (l : OwnershipLayout) (o : RawTypeOwner) (recovery : Bool)
    (supported : (extract_projection p).unsupport ≡ false)
    (one_field : (extract_projection p).pf_vec ≡ (i, t) ∷ [])
    (var_at : get_elem? s.slice.var p.local ≡ some (init x))
    (len_at : get_elem? s.slice.len p.local ≡ some n)
    (layout_at : get_elem? s.slice.layout p.local ≡ some l) (settled : IsSettled l)
    (field_at : get_elem? l i ≡ some o) (fits : length l ≡ n) (sized : L.width x ≡ n) where
  open cx use {z3, z3.{BV, new_const}}
  open L use {Model, width, bits}

  -- The bit vector of the local after the drop.
  abbrev pub dropped : BV
  dropped =
      new_const
        (new_local_name p.local bidx 0
          ++ (if recovery then codes "_drop_f_recovery" else codes "_drop_f"))
        n

  -- Whether the drop keeps the field: a recovery takes what the layout does not own.
  abbrev pub is_kept : Bool
  is_kept = if recovery then is_owned o else not (is_owned o)

  last_bit : get_elem? (reverse_ownership_layout_to_rustbv l) i ≡ some (not (is_owned o))
  last_bit =
      ap (λ b. get_elem? b i) (reverse-mask l settled)
      ∙ get_elem?-map (λ r. not (is_owned r)) l i field_at

  -- The drop of a field that is in the settled layout of a local, initialised at the width of its
  -- length and of its layout, returns and rebinds the local; its models are those of before in
  -- which the new value owns what the old one did, but for the field unless the drop keeps it.
  pub handle_drop-clears :
      (s' : St cx) × (handle_drop cx p bidx recovery s ≡ ret (tt, s'))
      × (get_elem? s'.slice.var p.local ≡ some (init dropped))
      × ((m : Model)
          → Models cx L m s'.solver ↔ (
              Models cx L m s.solver
              × (bits m dropped ≡ (if is_kept then bits m x else set (bits m x) i false))))
  unfolding handle_drop drop_field
  handle_drop-clears =
      let below = lt-length_of_get_elem? l i field_at in
      let mask_below = lt-length_of_get_elem? (reverse_ownership_layout_to_rustbv l) i last_bit in
      let new_width =
        L.width-new_const
          (new_local_name p.local bidx 0
            ++ (if recovery then codes "_drop_f_recovery" else codes "_drop_f"))
          n in
      let rebound = get_elem?-set-some s.slice.var p.local (init dropped) var_at in
      let bit = last_bit in
      elim (Bool-cases is_kept) [
        | inl kept ↦
            let (f, e, mean) = equated cx L dropped x (new_width ∙ sym sized) in
            (
              record s {
                slice = record s.slice { var = set s.slice.var p.local (init dropped) };
                goal = f ∷ s.goal;
                solver = f ∷ s.solver;
              },
              ground arith,
              rebound,
              λ m. rw kept (λ h. (h.1, (mean m).0 h.0), λ h. ((mean m).1 h.1, h.0)),
            )
        | inr taken ↦
            let (c, run, size, value) =
              splice_field-bits cx L s x i n (zeros cx 1) sized (omega arith)
                (L.width-from_u64 0 1) in
            let (f, e, mean) = equated cx L dropped c (new_width ∙ sym size) in
            let cleared = λ (m : Model).
              value m ∙ ap (λ v. set (bits m x) i (get_or v 0 false)) (bits-zeros cx L m 1) in
            (
              record s {
                slice = record s.slice { var = set s.slice.var p.local (init dropped) };
                goal = f ∷ s.goal;
                solver = f ∷ s.solver;
              },
              ground arith,
              rebound,
              λ m. rw taken (
                λ h. (h.1, (mean m).0 h.0 ∙ cleared m),
                λ h. ((mean m).1 (h.1 ∙ sym (cleared m)), h.0),
              ),
            )
      ]
