-- ===== src/Flow/Fields/Between.antt =====
-- What the copies and moves of a field into a field assert.
use mathlib.Core.Logic.{⊎_map}
use rul_checker.Prelude.{
  ℕ, suc, ◌≤◌, ◌<◌, ◌≡◌, refl, sym, ap, ◌∙◌, ◌↔◌, ◌⊎◌, false, [], ◌∷◌, set, get_or, arith, ◌-◌,
  take, drop,
}
use rul_checker.Run.{ret}
use rul_checker.Ownership.{RustBv}
use rul_checker.Bits.Fields.{bit_at}
use rul_checker.Z3.{Laws}
use rul_checker.Flow.{Cx, St}
use rul_checker.Flow.Meaning.{Models, equated, clear_field-bits, splice_field-bits}
use rul_checker.Flow.Fields.{field_terms, copy_field_owning, move_field_owning}

module _ (cx : Cx) (L : Laws cx.z3) (s : St cx) (l_new r_new l_ori r_ori : cx.z3.BV)
    (llen rlen li ri : ℕ) (l_range : li < llen) (r_range : ri < rlen) (r_small : rlen ≤ 64)
    (l_width : L.width l_new ≡ llen) (r_width : L.width r_new ≡ rlen)
    (l_sized : L.width l_ori ≡ llen) (r_sized : L.width r_ori ≡ rlen) where
  open cx use {z3, z3.{BV, Formula, extract, bool_and, bool_or}}
  open L use {Model, width, bits, Sat}

  field_bit : (m : Model) → bits m (extract r_ori ri ri) ≡ get_or (bits m r_ori) ri false ∷ []
  field_bit m =
      let one : suc ri - ri ≡ 1 = omega arith in
      L.bits-extract m r_ori ri ri (omega arith) (omega arith)
      ∙ ap (λ (k : ℕ). take k (drop ri (bits m r_ori))) one
      ∙ bit_at (bits m r_ori) ri (omega (arith, L.length-bits m r_ori))

  -- The two equations are formed: the field of `r` is cleared, and its bit goes to the field of `l`.
  terms_mean :
      (f g : Formula) × (field_terms cx l_new r_new l_ori r_ori llen rlen li ri s ≡ ret ((f, g), s))
      × ((m : Model) → Sat m f ↔ (bits m r_new ≡ set (bits m r_ori) ri false))
      × ((m : Model)
          → Sat m g ↔ (bits m l_new ≡ set (bits m l_ori) li (get_or (bits m r_ori) ri false)))
  unfolding field_terms
  terms_mean =
      let bit_width : width (extract r_ori ri ri) ≡ 1 =
        L.width-extract r_ori ri ri (omega arith) (omega arith) ∙ omega arith in
      let (c, ec, wc, mc) = clear_field-bits cx L s r_ori ri rlen r_sized r_range r_small in
      let (d, ed, wd, md) =
        splice_field-bits cx L s l_ori li llen (extract r_ori ri ri) l_sized l_range bit_width in
      let (f, ef, mf) = equated cx L r_new c (r_width ∙ sym wc) in
      let (g, eg, mg) = equated cx L l_new d (l_width ∙ sym wd) in
      let value = λ (m : Model).
        md m ∙ ap (λ (v : RustBv). set (bits m l_ori) li (get_or v 0 false)) (field_bit m) in
      (
        f,
        g,
        ground arith,
        λ m. (λ h. (mf m).0 h ∙ mc m, λ h. (mf m).1 (h ∙ sym (mc m))),
        λ m. (λ h. (mg m).0 h ∙ value m, λ h. (mg m).1 (h ∙ sym (value m))),
      )

  -- For fields within `l` and `r`, the latter of up to 64 fields, and terms at the two widths, the
  -- assertion of `l.f = move r.g` returns, and its models are those of before in which the new
  -- value of `r` owns what it did but for its field, and that of `l` what it did but that its
  -- field owns what that of `r` did.
  pub move_field_owning-transfers :
      (s' : St cx) × (move_field_owning cx l_new r_new l_ori r_ori llen rlen li ri s ≡ ret (tt, s'))
      × (s'.slice ≡ s.slice)
      × ((m : Model)
          → Models cx L m s'.solver ↔ (
              Models cx L m s.solver
              × (bits m r_new ≡ set (bits m r_ori) ri false)
              × (bits m l_new ≡ set (bits m l_ori) li (get_or (bits m r_ori) ri false))))
  unfolding move_field_owning
  move_field_owning-transfers =
      let (f, g, run, mf, mg) = terms_mean in
      (
        record s { goal = g ∷ f ∷ s.goal; solver = g ∷ f ∷ s.solver },
        ground arith,
        refl,
        λ m. (λ h. (h.1.1, (mf m).0 h.1.0, (mg m).0 h.0), λ h. ((mg m).1 h.2, ((mf m).1 h.1, h.0))),
      )

  -- For fields within `l` and `r`, both of up to 64 fields, and terms at the two widths, the
  -- assertion of `l.f = r.g` returns, and its models are those of before in which either the field
  -- of `r` is moved into that of `l`, or that of `l` owns nothing and `r` keeps all.
  pub copy_field_owning-shares :
      llen ≤ 64
      → (s' : St cx) × (copy_field_owning cx l_new r_new l_ori r_ori llen rlen li ri s
          ≡ ret (tt, s'))
        × (s'.slice ≡ s.slice)
        × ((m : Model)
            → Models cx L m s'.solver ↔ (
                Models cx L m s.solver
                × ((bits m r_new ≡ set (bits m r_ori) ri false)
                      × (bits m l_new ≡ set (bits m l_ori) li (get_or (bits m r_ori) ri false))
                    ⊎ (bits m l_new ≡ set (bits m l_ori) li false)
                      × (bits m r_new ≡ bits m r_ori))))
  unfolding copy_field_owning
  copy_field_owning-shares small =
      let (f, g, run, mf, mg) = terms_mean in
      let (k, ek, mk) = equated cx L r_new r_ori (r_width ∙ sym r_sized) in
      let (d, ed, wd, md) = clear_field-bits cx L s l_ori li llen l_sized l_range small in
      let (z, ez, mz) = equated cx L l_new d (l_width ∙ sym wd) in
      let either = bool_or (bool_and f g) (bool_and z k) in
      (
        record s { goal = either ∷ s.goal; solver = either ∷ s.solver },
        ground arith,
        refl,
        λ m. (
          λ h. (
            h.1,
            ⊎_map (λ a. let (hf, hg) = (L.Sat-bool_and m f g).0 a in ((mf m).0 hf, (mg m).0 hg))
                (λ a.
                  let (hz, hk) = (L.Sat-bool_and m z k).0 a in ((mz m).0 hz ∙ md m, (mk m).0 hk))
                ((L.Sat-bool_or m (bool_and f g) (bool_and z k)).0 h.0),
          ),
          λ h. (
            (L.Sat-bool_or m (bool_and f g) (bool_and z k)).1 (
                ⊎_map (λ a. (L.Sat-bool_and m f g).1 ((mf m).1 a.0, (mg m).1 a.1))
                  (λ a. (L.Sat-bool_and m z k).1 ((mz m).1 (a.0 ∙ sym (md m)), (mk m).1 a.1)) h.1),
            h.0,
          ),
        ),
      )
