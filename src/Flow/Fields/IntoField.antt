-- ===== src/Flow/Fields/IntoField.antt =====
-- What the copies and moves of a whole into a field assert.
use mathlib.Core.Logic.{⊎_map}
use rul_checker.Prelude.{
  ℕ, ◌≤◌, ◌<◌, ◌≡◌, refl, sym, ap, ◌∙◌, ◌↔◌, ◌⊎◌, false, ◌∷◌, set, get_or, arith, some,
}
use rul_checker.Run.{ret}
use rul_checker.Ownership.{RustBv}
use rul_checker.Bits.Fields.{nothing}
use rul_checker.Z3.{Laws, any_set}
use rul_checker.Flow.{Cx, St}
use rul_checker.Flow.Terms.{zeros, splice_field}
use rul_checker.Flow.Meaning.{Models, equated, bits-zeros, clear_field-bits, splice_field-bits}
use rul_checker.Flow.Fields.{copy_to_field_owning, move_to_field_owning}

module _ (cx : Cx) (L : Laws cx.z3) (s : St cx) (l_new r_new l_ori r_ori : cx.z3.BV)
    (llen rlen i : ℕ) (in_range : i < llen) (l_width : L.width l_new ≡ llen)
    (r_width : L.width r_new ≡ rlen) (l_sized : L.width l_ori ≡ llen)
    (r_sized : L.width r_ori ≡ rlen) where
  open cx use {z3, z3.{BV, Formula, bvredor, bool_and, bool_or}}
  open L use {Model, width, bits, Sat}

  -- The left side holds in the field whether the right side owned anything.
  abbrev pub IsShrunk : Model → Type 0
  IsShrunk m = bits m l_new ≡ set (bits m l_ori) i (any_set (bits m r_ori))

  -- The equation for the left side is formed, and means just that.
  shrunk :
      (c : BV) × (f : Formula) × (splice_field cx l_ori i llen (bvredor r_ori) s ≡ ret (c, s))
      × (z3.safe_eq l_new c ≡ some f)
      × ((m : Model) → Sat m f ↔ IsShrunk m)
  shrunk =
      let (c, run, size, mean) =
        splice_field-bits cx L s l_ori i llen (bvredor r_ori) l_sized in_range
          (L.width-bvredor r_ori) in
      let (f, e, eq) = equated cx L l_new c (l_width ∙ sym size) in
      let value = λ (m : Model).
        mean m
        ∙ ap (λ (v : RustBv). set (bits m l_ori) i (get_or v 0 false)) (L.bits-bvredor m r_ori) in
      (c, f, run, e, λ m. (λ h. (eq m).0 h ∙ value m, λ h. (eq m).1 (h ∙ sym (value m))))

  -- For a field within `l` and terms at the two widths, the assertion of `l.f = move r` returns,
  -- and its models are those of before in which the new value of `r` owns nothing, and that of `l`
  -- owns in the field if `r` owned anything, and else what it did.
  pub move_to_field_owning-transfers :
      (s' : St cx) × (move_to_field_owning cx l_new r_new l_ori r_ori llen rlen i s ≡ ret (tt, s'))
      × (s'.slice ≡ s.slice)
      × ((m : Model)
          → Models cx L m s'.solver ↔ (
              Models cx L m s.solver
              × (bits m r_new ≡ nothing rlen)
              × (bits m l_new ≡ set (bits m l_ori) i (any_set (bits m r_ori)))))
  unfolding move_to_field_owning
  move_to_field_owning-transfers =
      let (c, f, run, e, mf) = shrunk in
      let (z, ez, mz) =
        equated cx L r_new (zeros cx rlen) (r_width ∙ sym (L.width-from_u64 0 rlen)) in
      (
        record s { goal = f ∷ z ∷ s.goal; solver = f ∷ z ∷ s.solver },
        ground arith,
        refl,
        λ m. (
          λ h. (h.1.1, (mz m).0 h.1.0 ∙ bits-zeros cx L m rlen, (mf m).0 h.0),
          λ h. ((mf m).1 h.2, ((mz m).1 (h.1 ∙ sym (bits-zeros cx L m rlen)), h.0)),
        ),
      )

  -- For a field within `l`, of up to 64 fields, and terms at the two widths, the assertion of `l.f
  -- = r` returns, and its models are those of before in which either `r` keeps all that it had and
  -- the field of `l` owns nothing, or `r` is moved into the field.
  pub copy_to_field_owning-shares :
      llen ≤ 64
      → (s' : St cx) × (copy_to_field_owning cx l_new r_new l_ori r_ori llen rlen i s
          ≡ ret (tt, s'))
        × (s'.slice ≡ s.slice)
        × ((m : Model)
            → Models cx L m s'.solver ↔ (
                Models cx L m s.solver
                × ((bits m r_new ≡ bits m r_ori) × (bits m l_new ≡ set (bits m l_ori) i false)
                    ⊎ (bits m r_new ≡ nothing rlen)
                      × (bits m l_new ≡ set (bits m l_ori) i (any_set (bits m r_ori))))))
  unfolding copy_to_field_owning
  copy_to_field_owning-shares small =
      let (c, f, run, e, mf) = shrunk in
      let (z, ez, mz) =
        equated cx L r_new (zeros cx rlen) (r_width ∙ sym (L.width-from_u64 0 rlen)) in
      let (k, ek, mk) = equated cx L r_new r_ori (r_width ∙ sym r_sized) in
      let (d, ed, wd, md) = clear_field-bits cx L s l_ori i llen l_sized in_range small in
      let (g, eg, mg) = equated cx L l_new d (l_width ∙ sym wd) in
      let either = bool_or (bool_and k g) (bool_and z f) in
      (
        record s { goal = either ∷ s.goal; solver = either ∷ s.solver },
        ground arith,
        refl,
        λ m. (
          λ h. (
            h.1,
            ⊎_map
                (λ a.
                  let (hk, hg) = (L.Sat-bool_and m k g).0 a in ((mk m).0 hk, (mg m).0 hg ∙ md m))
                (λ a.
                  let (hz, hf) = (L.Sat-bool_and m z f).0 a in
                  ((mz m).0 hz ∙ bits-zeros cx L m rlen, (mf m).0 hf))
                ((L.Sat-bool_or m (bool_and k g) (bool_and z f)).0 h.0),
          ),
          λ h. (
            (L.Sat-bool_or m (bool_and k g) (bool_and z f)).1 (
                ⊎_map (λ a. (L.Sat-bool_and m k g).1 ((mk m).1 a.0, (mg m).1 (a.1 ∙ sym (md m))))
                  (λ a.
                    (L.Sat-bool_and m z f).1
                      ((mz m).1 (a.0 ∙ sym (bits-zeros cx L m rlen)), (mf m).1 a.1))
                  h.1),
            h.0,
          ),
        ),
      )
