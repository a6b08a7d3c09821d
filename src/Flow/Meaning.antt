-- ===== src/Flow/Meaning.antt =====
-- What the terms of `Flow.Terms` mean in a model of z3.
use rul_checker.Prelude.{
  ℕ, zero, suc, ◌-◌, ◌≤◌, ◌<◌, ◌≡◌, refl, sym, ap, ◌∙◌, ◌↔◌, Bool, true, false, List, [], ◌∷◌, ◌++◌,
  some, get_elem?, get_or, set, take, drop, length, replicate, arith, All, if◌then◌else◌, ltb,
  Bool-cases, inl, inr, length-drop,
}
use rul_checker.Run.{ret}
use rul_checker.Ownership.{RustBv}
use rul_checker.Bits.{rustbv_to_int}
use rul_checker.Bits.Fields.{
  nothing, to_bits-zero, mask_bits, splice_bits, take-length, drop-length, bit_at,
}
use rul_checker.Z3.{Laws, zip_and, sign_bit}
use rul_checker.Flow.{Cx, St}
use rul_checker.Flow.Terms.{zeros, clear_field, splice_field, repeat_field}

module _ (cx : Cx) (L : Laws cx.z3) where
  open cx use {z3, z3.{BV, Formula, new_const, safe_eq, bvand, from_u64, extract}}
  open L use {Model, width, bits, Sat}

  -- A model of all that was asserted so far.
  abbrev pub Models : Model → List Formula → Type 0
  Models m fs = All (Sat m) fs

  pub bits-zeros : (m : Model) (w : ℕ) → bits m (zeros cx w) ≡ nothing w
  bits-zeros m w = L.bits-from_u64 m 0 w ∙ to_bits-zero w

  -- An equation of terms of one width is formed, and means that the bits agree.
  pub equated :
      (a b : BV)
      → width a ≡ width b
      → (f : Formula) × (safe_eq a b ≡ some f) × ((m : Model) → Sat m f ↔ (bits m a ≡ bits m b))
  equated a b h = let (f, e) = L.safe_eq-some a b h in (f, e, λ m. L.Sat-safe_eq m a b e)

  abbrev cleared : BV → ℕ → ℕ → BV
  cleared bv i n = bvand bv (from_u64 (rustbv_to_int (set (replicate n true) i false)) n)

  get_elem?-replicate : (n i : ℕ) → i < n → get_elem? (replicate n true) i ≡ some true
  get_elem?-replicate zero i h = absurd (omega arith)
  get_elem?-replicate (suc n) zero h = refl
  get_elem?-replicate (suc n) (suc i) h = get_elem?-replicate n i (omega arith)

  -- For a field within a term of up to 64 fields, `clear_field` returns a term of the same width:
  -- the bit of the field is 0, and the others are kept.
  pub clear_field-bits :
      (s : St cx) (bv : BV) (i n : ℕ)
      → width bv ≡ n
      → i < n
      → n ≤ 64
      → (c : BV) × (clear_field cx bv i n s ≡ ret (c, s))
        × (width c ≡ n)
        × ((m : Model) → bits m c ≡ set (bits m bv) i false)
  unfolding clear_field
  clear_field-bits s bv i n w h k =
      let same : width bv ≡ width (from_u64 (rustbv_to_int (set (replicate n true) i false)) n) =
        w ∙ sym (L.width-from_u64 (rustbv_to_int (set (replicate n true) i false)) n) in
      (
        cleared bv i n,
        ground (arith, get_elem?-replicate n i),
        L.width-bvand bv _ same ∙ w,
        λ m.
            L.bits-bvand m bv _ same
            ∙ ap (zip_and (bits m bv)) (L.bits-from_u64 m _ n)
            ∙ mask_bits (bits m bv) i n (L.length-bits m bv ∙ w) h k,
      )

  upper : BV → ℕ → ℕ → BV → BV
  upper bv i n bit = if ltb i (n - 1) then z3.concat (extract bv (n - 1) (suc i)) bit else bit

  -- Above the field there are fields exactly if it is not the last one.
  upper-width :
      (bv bit : BV) (i n : ℕ)
      → width bv ≡ n
      → i < n
      → width bit ≡ 1
      → width (upper bv i n bit) ≡ n - i
  unfolding upper
  upper-width bv bit i n w h e =
      ground
        (arith, L.width-concat (extract bv (n - 1) (suc i)) bit, L.width-extract bv (n - 1) (suc i))

  upper-bits :
      (m : Model) (bv : BV) (i n : ℕ) (bit : BV) (b : Bool)
      → width bv ≡ n
      → i < n
      → bits m bit ≡ b ∷ []
      → bits m (upper bv i n bit) ≡ b ∷ drop (suc i) (bits m bv)
  unfolding upper
  upper-bits m bv i n bit b w h e = elim (Bool-cases (ltb i (n - 1))) [
    | inl more ↦ rw more (
        L.bits-concat m (extract bv (n - 1) (suc i)) bit
        ∙ ap (λ (v : RustBv). v ++ bits m (extract bv (n - 1) (suc i))) e
        ∙ ap (◌∷◌ b) (
            L.bits-extract m bv (n - 1) (suc i) (ground arith) (ground arith)
            ∙ take-length (drop (suc i) (bits m bv)) (suc (n - 1) - suc i)
                (omega (arith, length-drop (suc i) (bits m bv), L.length-bits m bv))))
    | inr last ↦ rw last (
        e ∙ ap (◌∷◌ b) (sym (drop-length (bits m bv) (suc i) (ground (arith, L.length-bits m bv)))))
  ]

  splice_field-bit :
      (s : St cx) (bv : BV) (i n : ℕ) (bit : BV)
      → width bv ≡ n
      → i < n
      → width bit ≡ 1
      → (c : BV) × (splice_field cx bv i n bit s ≡ ret (c, s))
        × (width c ≡ n)
        × ((m : Model) (b : Bool) → bits m bit ≡ b ∷ [] → bits m c ≡ set (bits m bv) i b)
  unfolding splice_field upper
  splice_field-bit s bv i n bit w h e = elim (Bool-cases (ltb 0 i)) [
    | inl lower ↦ (
      z3.concat (upper bv i n bit) (extract bv (i - 1) 0),
      ground arith,
      ground (
        arith,
        upper-width bv bit i n w h e,
        L.width-concat (upper bv i n bit) (extract bv (i - 1) 0),
        L.width-extract bv (i - 1) 0,
      ),
      λ m b bit_is.
          let count : suc (i - 1) - 0 ≡ i = ground arith in
          L.bits-concat m (upper bv i n bit) (extract bv (i - 1) 0)
          ∙ ap (λ (v : RustBv). v ++ bits m (upper bv i n bit))
              (L.bits-extract m bv (i - 1) 0 (omega arith) (omega arith)
                ∙ ap (λ (k : ℕ). take k (bits m bv)) count)
          ∙ ap (λ (v : RustBv). take i (bits m bv) ++ v) (upper-bits m bv i n bit b w h bit_is)
          ∙ splice_bits (bits m bv) i b (omega (arith, L.length-bits m bv)),
    )
    | inr first ↦ (
      upper bv i n bit,
      ground arith,
      ground (arith, upper-width bv bit i n w h e),
      λ m b bit_is.
          let at_0 : i ≡ 0 = ground arith in
          upper-bits m bv i n bit b w h bit_is
          ∙ rw at_0 (splice_bits (bits m bv) 0 b (omega (arith, L.length-bits m bv))),
    )
  ]

  one_bit_is : (v : RustBv) → length v ≡ 1 → v ≡ get_or v 0 false ∷ []
  one_bit_is [] h = cc
  one_bit_is (b ∷ []) h = refl
  one_bit_is (b ∷ c ∷ v) h = absurd (omega arith)

  -- For a field within a term and a new bit of width 1, `splice_field` returns a term of the same
  -- width: the new bit stands at the field, and the others are kept.
  pub splice_field-bits :
      (s : St cx) (bv : BV) (i n : ℕ) (bit : BV)
      → width bv ≡ n
      → i < n
      → width bit ≡ 1
      → (c : BV) × (splice_field cx bv i n bit s ≡ ret (c, s))
        × (width c ≡ n)
        × ((m : Model) → bits m c ≡ set (bits m bv) i (get_or (bits m bit) 0 false))
  splice_field-bits s bv i n bit w h e =
      let (c, run, size, mean) = splice_field-bit s bv i n bit w h e in
      (
        c,
        run,
        size,
        λ m.
            mean m (get_or (bits m bit) 0 false)
              (one_bit_is (bits m bit) (L.length-bits m bit ∙ e)),
      )

  -- For a field within a term and a length that is not zero, `repeat_field` is the bit of the
  -- field, that many times.
  pub repeat_field-bits :
      (m : Model) (bv : BV) (i n : ℕ)
      → i < width bv
      → 0 < n
      → bits m (repeat_field cx bv i n) ≡ replicate n (get_or (bits m bv) i false)
  unfolding repeat_field
  repeat_field-bits m bv i zero h k = absurd (omega arith)
  repeat_field-bits m bv i (suc n) h k = elim (Bool-cases (ltb 1 (suc n))) [
    | inl wide ↦
        let less : suc n - 1 ≡ n = omega arith in
        rw (wide, less)
          (L.bits-sign_ext m (extract bv i i) n
            ∙ ap (λ (v : RustBv). v ++ replicate n (sign_bit v)) one_bit)
    | inr single ↦ let none_left : n ≡ 0 = ground arith in rw (single, none_left) one_bit
  ]
    where
      one_bit : bits m (extract bv i i) ≡ get_or (bits m bv) i false ∷ []
      one_bit =
          let one : suc i - i ≡ 1 = omega arith in
          L.bits-extract m bv i i (omega arith) h
          ∙ ap (λ (k : ℕ). take k (drop i (bits m bv))) one
          ∙ bit_at (bits m bv) i (omega (arith, L.length-bits m bv))

  pub repeat_field-width :
      (bv : BV) (i n : ℕ) → i < width bv → 0 < n → width (repeat_field cx bv i n) ≡ n
  unfolding repeat_field
  repeat_field-width bv i n h k =
      ground (arith, L.width-sign_ext (extract bv i i) (n - 1), L.width-extract bv i i)
