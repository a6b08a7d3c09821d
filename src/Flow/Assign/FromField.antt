-- ===== src/Flow/Assign/FromField.antt =====
-- What the copies and moves out of a field assert.
use mathlib.Core.Logic.{⊎_map}
use rul_checker.Prelude.{
  ℕ, ◌≤◌, ◌<◌, ◌≡◌, refl, sym, ap, ◌∙◌, ◌↔◌, ◌⊎◌, Bool, false, ◌&&◌, [], ◌∷◌, some, map, get_elem?,
  get_or, set, length, replicate, arith,
}
use rul_checker.Run.{ret}
use rul_checker.Rustc.{PlaceTy}
use rul_checker.Ownership.{OwnershipLayout, RustBv, is_owned}
use rul_checker.Bits.{ownership_layout_to_rustbv, rustbv_to_int}
use rul_checker.Bits.Layouts.{IsSettled}
use rul_checker.Bits.Fields.{nothing}
use rul_checker.Bits.Layouts.{to_bits-layout}
use rul_checker.Z3.{Laws, zip_and}
use rul_checker.Flow.{Cx, St}
use rul_checker.Flow.Terms.{zeros, repeat_field, field_mask}
use rul_checker.Flow.Meaning.{
  Models, equated, bits-zeros, clear_field-bits, repeat_field-bits, repeat_field-width,
}
use rul_checker.Flow.Assign.{from_field_terms, move_from_field_owning, copy_from_field_owning}

-- The bits of a value of the layout whose owner held the bit `b`.
abbrev pub spread : OwnershipLayout → Bool → RustBv
spread l b = map (λ o. is_owned o && b) l

zip_and-replicate :
    (l : OwnershipLayout) (b : Bool)
    → zip_and (map is_owned l) (replicate (length l) b) ≡ spread l b
zip_and-replicate [] b = refl
zip_and-replicate (o ∷ l) b = ap (◌∷◌ (is_owned o && b)) (zip_and-replicate l b)

module _ (cx : Cx) (L : Laws cx.z3) (s : St cx) (l_new r_new r_ori : cx.z3.BV) (i n ru : ℕ)
    (rpj_ty : PlaceTy cx.tcx.Ty) (l : OwnershipLayout) (settled : IsSettled l)
    (l_small : length l ≤ 64) (l_some : 0 < length l) (n_small : n ≤ 64) (in_range : i < n)
    (untainted : get_elem? s.slice.taint ru ≡ some []) (l_width : L.width l_new ≡ length l)
    (r_width : L.width r_new ≡ n) (sized : L.width r_ori ≡ n) where
  open cx use {z3, z3.{BV, Formula, safe_eq, bvand, from_u64, bool_and, bool_or}}
  open L use {Model, width, bits, Sat}

  abbrev mask_bv : BV
  mask_bv = from_u64 (rustbv_to_int (ownership_layout_to_rustbv l)) (length l)

  same_width : width mask_bv ≡ width (repeat_field cx r_ori i (length l))
  same_width =
      L.width-from_u64 _ (length l)
      ∙ sym (repeat_field-width cx L r_ori i (length l) (omega arith) l_some)

  owned_bits :
      (m : Model)
      → bits m (bvand mask_bv (repeat_field cx r_ori i (length l)))
        ≡ spread l (get_or (bits m r_ori) i false)
  owned_bits m =
      L.bits-bvand m mask_bv (repeat_field cx r_ori i (length l)) same_width
      ∙ ap (λ v. zip_and v (bits m (repeat_field cx r_ori i (length l))))
          (L.bits-from_u64 m _ (length l) ∙ to_bits-layout l settled l_small)
      ∙ ap (zip_and (map is_owned l))
          (repeat_field-bits cx L m r_ori i (length l) (omega arith) l_some)
      ∙ zip_and-replicate l (get_or (bits m r_ori) i false)

  -- The two equations are formed, and mean what the field's owner hands over and keeps.
  terms_mean :
      (f g : Formula) × (from_field_terms cx l_new r_new r_ori (length l) n i ru rpj_ty l s
        ≡ ret ((f, g), s))
      × ((m : Model) → Sat m f ↔ (bits m l_new ≡ spread l (get_or (bits m r_ori) i false)))
      × ((m : Model) → Sat m g ↔ (bits m r_new ≡ set (bits m r_ori) i false))
  unfolding from_field_terms field_mask
  terms_mean =
      let whole = bvand mask_bv (repeat_field cx r_ori i (length l)) in
      let whole_width = L.width-bvand mask_bv _ same_width ∙ L.width-from_u64 _ (length l) in
      let (f, ef, mf) = equated cx L l_new whole (l_width ∙ sym whole_width) in
      let (c, ec, wc, mc) = clear_field-bits cx L s r_ori i n sized in_range n_small in
      let (g, eg, mg) = equated cx L r_new c (r_width ∙ sym wc) in
      (
        f,
        g,
        ground arith,
        λ m. (λ h. (mf m).0 h ∙ owned_bits m, λ h. (mf m).1 (h ∙ sym (owned_bits m))),
        λ m. (λ h. (mg m).0 h ∙ mc m, λ h. (mg m).1 (h ∙ sym (mc m))),
      )

  -- For an untainted source of up to 64 fields, a settled layout of 1 to 64 fields and terms at
  -- these widths, the assertion of `l = move r.f` returns, and its models are those of before in
  -- which the new value of `l` owns in each owned field of its layout what the field of `r` owned,
  -- and the new value of `r` owns what it did but for the field.
  pub move_from_field_owning-transfers :
      (s' : St cx) × (move_from_field_owning cx l_new r_new r_ori (length l) n i ru rpj_ty l s
        ≡ ret (tt, s'))
      × (s'.slice ≡ s.slice)
      × ((m : Model)
          → Models cx L m s'.solver ↔ (
              Models cx L m s.solver
              × (bits m l_new ≡ spread l (get_or (bits m r_ori) i false))
              × (bits m r_new ≡ set (bits m r_ori) i false)))
  unfolding move_from_field_owning
  move_from_field_owning-transfers =
      let (f, g, run, mf, mg) = terms_mean in
      (
        record s { goal = g ∷ f ∷ s.goal; solver = g ∷ f ∷ s.solver },
        ground arith,
        refl,
        λ m. (λ h. (h.1.1, (mf m).0 h.1.0, (mg m).0 h.0), λ h. ((mg m).1 h.2, ((mf m).1 h.1, h.0))),
      )

  -- For an untainted source of up to 64 fields, a settled layout of 1 to 64 fields and terms at
  -- these widths, the assertion of `l = r.f` returns, and its models are those of before in which
  -- either `r` keeps all that it had and `l` has nothing, or the field is handed over as by a
  -- move.
  pub copy_from_field_owning-shares :
      (s' : St cx) × (copy_from_field_owning cx l_new r_new r_ori (length l) n i ru rpj_ty l s
        ≡ ret (tt, s'))
      × (s'.slice ≡ s.slice)
      × ((m : Model)
          → Models cx L m s'.solver ↔ (
              Models cx L m s.solver
              × ((bits m r_new ≡ bits m r_ori) × (bits m l_new ≡ nothing (length l))
                  ⊎ (bits m l_new ≡ spread l (get_or (bits m r_ori) i false))
                    × (bits m r_new ≡ set (bits m r_ori) i false))))
  unfolding copy_from_field_owning
  copy_from_field_owning-shares =
      let (f, g, run, mf, mg) = terms_mean in
      let (k, ek, mk) = equated cx L r_new r_ori (r_width ∙ sym sized) in
      let (z, ez, mz) =
        equated cx L l_new (zeros cx (length l)) (l_width ∙ sym (L.width-from_u64 0 (length l))) in
      let either = bool_or (bool_and k z) (bool_and f g) in
      (
        record s { goal = either ∷ s.goal; solver = either ∷ s.solver },
        ground arith,
        refl,
        λ m. (
          λ h. (
            h.1,
            ⊎_map
                (λ c.
                  let (hk, hz) = (L.Sat-bool_and m k z).0 c in
                  ((mk m).0 hk, (mz m).0 hz ∙ bits-zeros cx L m (length l)))
                (λ c. let (hf, hg) = (L.Sat-bool_and m f g).0 c in ((mf m).0 hf, (mg m).0 hg))
                ((L.Sat-bool_or m (bool_and k z) (bool_and f g)).0 h.0),
          ),
          λ h. (
            (L.Sat-bool_or m (bool_and k z) (bool_and f g)).1 (
                ⊎_map
                  (λ c.
                    (L.Sat-bool_and m k z).1
                      ((mk m).1 c.0, (mz m).1 (c.1 ∙ sym (bits-zeros cx L m (length l)))))
                  (λ c. (L.Sat-bool_and m f g).1 ((mf m).1 c.0, (mg m).1 c.1)) h.1),
            h.0,
          ),
        ),
      )
