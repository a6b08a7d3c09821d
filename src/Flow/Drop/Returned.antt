-- ===== src/Flow/Drop/Returned.antt =====
-- What the loop of `handle_return` asserts.
use rul_checker.Prelude.{
  ℕ, zero, suc, ◌≡◌, refl, sym, ap, ◌∙◌, ◌↔◌, true, false, ◌||◌, List, [], ◌∷◌, ◌++◌, some,
  get_elem?, drop, arith, if◌then◌else◌, ◌==◌, leb, Bool-cases, inl, inr,
}
use rul_checker.Run.{ret}
use rul_checker.State.{skip}
use rul_checker.Bits.Fields.{nothing}
use rul_checker.Z3.{Laws}
use rul_checker.Slice.{IntroVar, init, declared, unsupported}
use rul_checker.Flow.{Cx, St, codes, new_local_name}
use rul_checker.Flow.Terms.{zeros}
use rul_checker.Flow.Meaning.{Models, equated, bits-zeros}
use rul_checker.Flow.Drop.{return_var, return_vars}

drop-eq-cons :
    (xs : List ℕ) (i : ℕ) {n : ℕ} {ns : List ℕ}
    → drop i xs ≡ n ∷ ns
    → (get_elem? xs i ≡ some n) × (drop (suc i) xs ≡ ns)
drop-eq-cons [] zero h = cc
drop-eq-cons [] (suc i) h = cc
drop-eq-cons (x ∷ xs) zero h = (cc, cc)
drop-eq-cons (x ∷ xs) (suc i) h = drop-eq-cons xs i h

module _ (cx : Cx) (L : Laws cx.z3) where
  open cx use {z3, body, z3.{BV, Formula, new_const, bool_and}}
  open L use {Model, width, bits, Sat}

  -- Each initialised variable has the width of its length.
  abbrev pub IsSized : List (IntroVar BV) → List ℕ → Type 0
  IsSized [] ns = Unit
  IsSized (v ∷ vs) [] = ⊥
  IsSized (init x ∷ vs) (n ∷ ns) = (width x ≡ n) × IsSized vs ns
  IsSized (declared ∷ vs) (n ∷ ns) = IsSized vs ns
  IsSized (unsupported ∷ vs) (n ∷ ns) = IsSized vs ns

  abbrev pub returned : ℕ → ℕ → ℕ → BV
  returned bidx i n = new_const (new_local_name i bidx 0 ++ codes "_return") n

  -- The local, if it is no argument, has fields and is initialised, owns nothing at the end.
  abbrev pub IsFreed : ℕ → Model → ℕ → IntroVar BV → ℕ → Type 0
  IsFreed bidx m i (init x) n =
      if (n == 0) || leb i body.arg_count
      then Unit
      else ((bits m (returned bidx i n) ≡ bits m x) × (bits m x ≡ nothing n))
  IsFreed bidx m i declared n = Unit
  IsFreed bidx m i unsupported n = Unit

  -- All locals from the given one on.
  abbrev pub AllFreed : ℕ → Model → ℕ → List (IntroVar BV) → List ℕ → Type 0
  AllFreed bidx m i [] ns = Unit
  AllFreed bidx m i (v ∷ vs) [] = ⊥
  AllFreed bidx m i (v ∷ vs) (n ∷ ns) = IsFreed bidx m i v n × AllFreed bidx m (suc i) vs ns

  -- One local: the loop's test and its body.
  return_var-frees :
      (s : St cx) (bidx i n : ℕ) (v : IntroVar BV)
      → get_elem? s.slice.len i ≡ some n
      → IsSized (v ∷ []) (n ∷ [])
      → ((n == 0) || leb i body.arg_count) ≡ false
      → (s' : St cx) × (return_var cx bidx i v s ≡ ret (tt, s'))
        × (s'.slice ≡ s.slice)
        × ((m : Model) → Models cx L m s'.solver ↔ (Models cx L m s.solver × IsFreed bidx m i v n))
  unfolding return_var
  return_var-frees s bidx i n declared at_len sized on =
      (s, refl, refl, λ m. (λ h. (h, tt), λ h. h.0))
  return_var-frees s bidx i n unsupported at_len sized on =
      (s, refl, refl, λ m. (λ h. (h, tt), λ h. h.0))
  return_var-frees s bidx i n (init x) at_len sized on =
      let new_width = L.width-new_const (new_local_name i bidx 0 ++ codes "_return") n in
      let (f, ef, mf) = equated cx L (returned bidx i n) x (new_width ∙ sym sized.0) in
      let (g, eg, mg) =
        equated cx L (returned bidx i n) (zeros cx n) (new_width ∙ sym (L.width-from_u64 0 n)) in
      let both = bool_and f g in
      (
        record s { goal = both ∷ s.goal; solver = both ∷ s.solver },
        ground arith,
        refl,
        λ m. rw on (
          λ h.
              let (hf, hg) = (L.Sat-bool_and m f g).0 h.0 in
              (h.1, ((mf m).0 hf, sym ((mf m).0 hf) ∙ (mg m).0 hg ∙ bits-zeros cx L m n)),
          λ h. (
            (L.Sat-bool_and m f g).1
                ((mf m).1 h.1.0, (mg m).1 (h.1.0 ∙ h.1.1 ∙ sym (bits-zeros cx L m n))),
            h.0,
          ),
        ),
      )

  step-frees :
      (s : St cx) (bidx i n : ℕ) (v : IntroVar BV)
      → get_elem? s.slice.len i ≡ some n
      → IsSized (v ∷ []) (n ∷ [])
      → (s' : St cx) × ((if (n == 0) || leb i body.arg_count then skip else return_var cx bidx i v)
            s
          ≡ ret (tt, s'))
        × (s'.slice ≡ s.slice)
        × ((m : Model) → Models cx L m s'.solver ↔ (Models cx L m s.solver × IsFreed bidx m i v n))
  step-frees s bidx i n v at_len sized = elim (Bool-cases ((n == 0) || leb i body.arg_count)) [
    | inl off ↦ (s, ground arith, refl, λ m. (λ h. (h, skipped s bidx i n v m off), λ h. h.0))
    | inr on ↦
        let (s', run, kept, models) = return_var-frees s bidx i n v at_len sized on in
        (s', ground arith, kept, models)
  ]
    where
      skipped :
          (s : St cx) (bidx i n : ℕ) (v : IntroVar BV) (m : Model)
          → ((n == 0) || leb i body.arg_count) ≡ true
          → IsFreed bidx m i v n
      skipped s bidx i n (init x) m off = rw off tt
      skipped s bidx i n declared m off = tt
      skipped s bidx i n unsupported m off = tt

  IsSized-cons :
      (v : IntroVar BV) (vs : List (IntroVar BV)) (n : ℕ) (ns : List ℕ)
      → IsSized (v ∷ vs) (n ∷ ns)
      → IsSized (v ∷ []) (n ∷ []) × IsSized vs ns
  IsSized-cons (init x) vs n ns h = ((h.0, tt), h.1)
  IsSized-cons declared vs n ns h = (tt, h)
  IsSized-cons unsupported vs n ns h = (tt, h)

  -- The loop over the locals at the end of a body returns, where every initialised variable has its
  -- width; its models are those of before in which every initialised local past the arguments that has
  -- fields owns nothing, under its final name too.
  pub return_vars-frees :
      (s : St cx) (bidx i : ℕ) (vs : List (IntroVar BV)) (ns : List ℕ)
      → drop i s.slice.len ≡ ns
      → IsSized vs ns
      → (s' : St cx) × (return_vars cx bidx i vs s ≡ ret (tt, s'))
        × (s'.slice ≡ s.slice)
        × ((m : Model)
            → Models cx L m s'.solver ↔ (Models cx L m s.solver × AllFreed bidx m i vs ns))
  unfolding return_vars
  return_vars-frees s bidx i [] ns at_len sized = (s, refl, refl, λ m. (λ h. (h, tt), λ h. h.0))
  return_vars-frees s bidx i (v ∷ vs) [] at_len sized = absurd sized
  return_vars-frees s bidx i (v ∷ vs) (n ∷ ns) at_len sized =
      let (here, rest) = drop-eq-cons s.slice.len i at_len in
      let (first, others) = IsSized-cons v vs n ns sized in
      let (s1, run1, kept1, models1) = step-frees s bidx i n v here first in
      let (s2, run2, kept2, models2) =
        return_vars-frees s1 bidx (suc i) vs ns (ap (λ sl. drop (suc i) sl.len) kept1 ∙ rest)
          others in
      (
        s2,
        ground arith,
        kept2 ∙ kept1,
        λ m. (
          λ h.
              let (past, freed) = (models2 m).0 h in
              let (old, one) = (models1 m).0 past in (old, (one, freed)),
          λ h. (models2 m).1 ((models1 m).1 (h.0, h.1.0), h.1.1),
        ),
      )
