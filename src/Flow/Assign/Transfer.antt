-- ===== src/Flow/Assign/Transfer.antt =====
-- What the copies and moves of whole locals assert.
use mathlib.Core.Logic.{⊎_elim}
use rul_checker.Prelude.{
  ℕ, suc, ◌≡◌, ◌↔◌, ◌⊎◌, inl, inr, Bool, List, [], ◌∷◌, some, get_elem?, set, arith, sym, ap, ◌∙◌,
  ◌++◌, ◌≢◌, get_elem?-set_ne, get_elem?-set-some,
}
use rul_checker.Run.{ret}
use rul_checker.Rustc.Mir.{Place}
use rul_checker.Slice.{IntroVar, init, is_declared}
use rul_checker.Bits.Fields.{nothing}
use rul_checker.Z3.{Laws}
use rul_checker.Flow.{Cx, St, new_local_name}
use rul_checker.Flow.Terms.{zeros, l_name}
use rul_checker.Flow.Meaning.{Models, bits-zeros, equated}
use rul_checker.Flow.Assign.{handle_copy, handle_move}
use rul_checker.Flow.Assign.Ready.{At, Fits, Overwritable, ready, taint_returns}

module _ (cx : Cx) (L : Laws cx.z3) where
  open cx use {tcx.{Ty}, z3.{BV, Formula, new_const, safe_eq, bool_or, bool_and}}
  open L use {Model, width, bits, Sat}

  -- The state after the commit of two new bit vectors of width `n` and the assertion of `fs`.
  committed : St cx → ℕ → ℕ → ℕ → BV → BV → List Formula → St cx
  committed s lu ru n l' r' fs = record s {
    slice = record s.slice {
      var = set (set s.slice.var lu (init l')) ru (init r');
      len = set s.slice.len lu n;
    };
    goal = fs ++ s.goal;
    solver = fs ++ s.solver;
  }

  abbrev pub new_l : Bool → Place Ty → ℕ → ℕ → ℕ → BV
  new_l is_ctor p n bidx sidx = new_const (l_name cx is_ctor p.local bidx sidx) n

  abbrev pub new_r : Place Ty → ℕ → ℕ → ℕ → BV
  new_r p n bidx sidx = new_const (new_local_name p.local bidx sidx) n

  module _ (s : St cx) (l r : Place Ty) (bidx sidx n k : ℕ) (x : BV) (v : IntroVar BV)
      (a : At cx L s l.local v k) (b : At cx L s r.local (init x) (suc n))
      (fits : Fits cx L s l.local r.local (suc n) k x r v a b) (apart : l.local ≢ r.local)
      (sized : width x ≡ suc n) where
    abbrev left : BV
    left = new_l (is_declared v) l (suc n) bidx sidx

    abbrev right : BV
    right = new_r r (suc n) bidx sidx

    -- After the handler the two locals have their new bit vectors, at the width of the source.
    abbrev pub Rebound : St cx → Type 0
    Rebound s' =
        (get_elem? s'.slice.var l.local ≡ some (init left))
        × (get_elem? s'.slice.var r.local ≡ some (init right))
        × (get_elem? s'.slice.len l.local ≡ some (suc n))

    -- Reads of the two locals after both were written.
    rebound :
        (vs : List (IntroVar BV))
        → vs ≡ s.slice.var
        → (get_elem? (set (set vs l.local (init left)) r.local (init right)) l.local
            ≡ some (init left))
          × (get_elem? (set (set vs l.local (init left)) r.local (init right)) r.local
              ≡ some (init right))
    rebound vs e = (
      get_elem?-set_ne (set vs l.local (init left)) {i = r.local} {j = l.local} (init right)
            (λ h. apart (sym h))
          ∙ get_elem?-set-some vs l.local (init left)
              (ap (λ ws. get_elem? ws l.local) e ∙ a.at_var),
      get_elem?-set-some (set vs l.local (init left)) r.local (init right) (
          get_elem?-set_ne vs {i = l.local} {j = r.local} (init left) apart
          ∙ ap (λ ws. get_elem? ws r.local) e
          ∙ b.at_var),
    )

    move_returns :
        (f g : Formula)
        → safe_eq right (zeros cx (suc n)) ≡ some f
        → safe_eq left x ≡ some g
        → (s' : St cx) × (handle_move cx l r bidx sidx s ≡ ret (tt, s'))
          × Rebound s'
          × ((m : Model)
              → Models cx L m s'.solver
                ↔ (Sat m g × Sat m f × Models cx L m s.solver × Overwritable cx L m k v))
    unfolding handle_move committed
    move_returns f g ef eg =
        let (s0, prepared, vars, lens, taints, models) =
          ready cx L s l.local r.local (suc n) k x r v a b fits in
        let t = committed s0 l.local r.local (suc n) left right (g ∷ f ∷ []) in
        let (ts, tainted) =
          taint_returns cx L t l.local r.local (ap (λ ts. get_elem? ts l.local) taints ∙ a.at_taint)
            (ap (λ ts. get_elem? ts r.local) taints ∙ b.at_taint) in
        let (read_l, read_r) = rebound s0.slice.var vars in
        let read_len =
          get_elem?-set-some s0.slice.len l.local (suc n)
            (ap (λ ns. get_elem? ns l.local) lens ∙ a.at_len) in
        (
          record t { slice = record t.slice { taint = ts } },
          ground (
            arith,
            get_elem?-set_ne s0.slice.var {i = l.local} {j = r.local} (init left) apart,
            ap (λ vs. get_elem? vs l.local) vars,
            ap (λ vs. get_elem? vs r.local) vars,
            ap (λ ns. get_elem? ns l.local) lens,
          ),
          (read_l, read_r, read_len),
          λ m. (
            λ h. (h.0, h.1.0, ((models m).0 h.1.1).0, ((models m).0 h.1.1).1),
            λ h. (h.0, (h.1, (models m).1 (h.2, h.3))),
          ),
        )

    copy_returns :
        (f g f' g' : Formula)
        → safe_eq right x ≡ some f
        → safe_eq left (zeros cx (suc n)) ≡ some g
        → safe_eq left x ≡ some f'
        → safe_eq right (zeros cx (suc n)) ≡ some g'
        → (s' : St cx) × (handle_copy cx l r bidx sidx s ≡ ret (tt, s'))
          × Rebound s'
          × ((m : Model)
              → Models cx L m s'.solver ↔ (
                  Sat m (bool_or (bool_and f g) (bool_and f' g'))
                  × Models cx L m s.solver
                  × Overwritable cx L m k v))
    unfolding handle_copy committed
    copy_returns f g f' g' ef eg ef' eg' =
        let (s0, prepared, vars, lens, taints, models) =
          ready cx L s l.local r.local (suc n) k x r v a b fits in
        let t =
          committed s0 l.local r.local (suc n) left right
            (bool_or (bool_and f g) (bool_and f' g') ∷ []) in
        let (ts, tainted) =
          taint_returns cx L t l.local r.local (ap (λ ts. get_elem? ts l.local) taints ∙ a.at_taint)
            (ap (λ ts. get_elem? ts r.local) taints ∙ b.at_taint) in
        let (read_l, read_r) = rebound s0.slice.var vars in
        let read_len =
          get_elem?-set-some s0.slice.len l.local (suc n)
            (ap (λ ns. get_elem? ns l.local) lens ∙ a.at_len) in
        (
          record t { slice = record t.slice { taint = ts } },
          ground (
            arith,
            get_elem?-set_ne s0.slice.var {i = l.local} {j = r.local} (init left) apart,
            ap (λ vs. get_elem? vs l.local) vars,
            ap (λ vs. get_elem? vs r.local) vars,
            ap (λ ns. get_elem? ns l.local) lens,
          ),
          (read_l, read_r, read_len),
          λ m. (
            λ h. (h.0, ((models m).0 h.1).0, ((models m).0 h.1).1),
            λ h. (h.0, (models m).1 (h.1, h.2)),
          ),
        )

    same_width : (y : BV) → width y ≡ suc n → width y ≡ width (zeros cx (suc n))
    same_width y h = h ∙ sym (L.width-from_u64 0 (suc n))

    left_width : width left ≡ suc n
    left_width = L.width-new_const (l_name cx (is_declared v) l.local bidx sidx) (suc n)

    right_width : width right ≡ suc n
    right_width = L.width-new_const (new_local_name r.local bidx sidx) (suc n)

    -- For two different locals, of which the right one is initialised at the width of its length,
    -- not zero, and the left one is initialised at its length and the same type, or declared and
    -- of a type that can own: a move returns and rebinds both at the length of the right one; its
    -- models are those of before in which an overwritten value owned nothing, the left side has
    -- what the right side had, and the right side has nothing.
    pub handle_move-transfers :
        (s' : St cx) × (handle_move cx l r bidx sidx s ≡ ret (tt, s'))
        × Rebound s'
        × ((m : Model)
            → Models cx L m s'.solver ↔ (
                Models cx L m s.solver
                × Overwritable cx L m k v
                × (bits m left ≡ bits m x)
                × (bits m right ≡ nothing (suc n))))
    handle_move-transfers =
        let (f, ef, mf) = equated cx L right (zeros cx (suc n)) (same_width right right_width) in
        let (g, eg, mg) = equated cx L left x (left_width ∙ sym sized) in
        let (s', run, now, models) = move_returns f g ef eg in
        let zero_bits = λ (m : Model). bits-zeros cx L m (suc n) in
        (
          s',
          run,
          now,
          λ m. (
            λ h.
                let (hg, hf, old, free) = (models m).0 h in
                (old, free, (mg m).0 hg, (mf m).0 hf ∙ zero_bits m),
            λ h. (models m).1 ((mg m).1 h.2, (mf m).1 (h.3 ∙ sym (zero_bits m)), h.0, h.1),
          ),
        )

    -- Under the same conditions as for a move, a copy returns and rebinds both locals; its models
    -- are those of before in which an overwritten value owned nothing and one of the two sides has
    -- all that the right side had, the other nothing.
    pub handle_copy-shares :
        (s' : St cx) × (handle_copy cx l r bidx sidx s ≡ ret (tt, s'))
        × Rebound s'
        × ((m : Model)
            → Models cx L m s'.solver ↔ (
                Models cx L m s.solver
                × Overwritable cx L m k v
                × ((bits m right ≡ bits m x) × (bits m left ≡ nothing (suc n))
                    ⊎ (bits m left ≡ bits m x) × (bits m right ≡ nothing (suc n)))))
    handle_copy-shares =
        let (f, ef, mf) = equated cx L right x (right_width ∙ sym sized) in
        let (g, eg, mg) = equated cx L left (zeros cx (suc n)) (same_width left left_width) in
        let (f', ef', mf') = equated cx L left x (left_width ∙ sym sized) in
        let (g', eg', mg') = equated cx L right (zeros cx (suc n)) (same_width right right_width) in
        let (s', run, now, models) = copy_returns f g f' g' ef eg ef' eg' in
        let zero_bits = λ (m : Model). bits-zeros cx L m (suc n) in
        (
          s',
          run,
          now,
          λ m. (
            λ h.
                let (either, old, free) = (models m).0 h in
                (
                  old,
                  free,
                  ⊎_elim
                      (λ c.
                        let (hf, hg) = (L.Sat-bool_and m f g).0 c in
                        inl ((mf m).0 hf, (mg m).0 hg ∙ zero_bits m))
                      (λ c.
                        let (hf, hg) = (L.Sat-bool_and m f' g').0 c in
                        inr ((mf' m).0 hf, (mg' m).0 hg ∙ zero_bits m))
                      ((L.Sat-bool_or m (bool_and f g) (bool_and f' g')).0 either),
                ),
            λ h. (models m).1 (
              (L.Sat-bool_or m (bool_and f g) (bool_and f' g')).1 (
                  ⊎_elim
                    (λ c.
                      inl (
                        (L.Sat-bool_and m f g).1
                          ((mf m).1 c.0, (mg m).1 (c.1 ∙ sym (zero_bits m)))))
                    (λ c. inr (
                      (L.Sat-bool_and m f' g').1
                        ((mf' m).1 c.0, (mg' m).1 (c.1 ∙ sym (zero_bits m)))))
                    h.2),
              h.0,
              h.1,
            ),
          ),
        )
