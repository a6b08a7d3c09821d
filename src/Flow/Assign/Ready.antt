-- ===== src/Flow/Assign/Ready.antt =====
-- The guards of the copies and moves of whole locals: when the handler goes on.
use rul_checker.Prelude.{
  ℕ, ◌≡◌, refl, ◌↔◌, inl, inr, List, ◌∷◌, some, get_elem?, set, arith, sym, ◌∙◌, Bool-cases,
}
use rul_checker.Run.{ret}
use rul_checker.Rustc.Mir.{Place}
use rul_checker.Ownership.{OwnershipLayout}
use rul_checker.TypeVisitor.{new_ty, get_priority, TyWithIndex}
use rul_checker.Slice.{
  IntroVar, init, declared, unsupported, Taint, is_declared, is_untainted, taint_insert_all,
}
use rul_checker.Bits.Fields.{nothing}
use rul_checker.Z3.{Laws}
use rul_checker.Flow.{Cx, St, handle_taint}
use rul_checker.Flow.Terms.{zeros, prepare_whole}
use rul_checker.Flow.Meaning.{Models, bits-zeros, equated}

module _ (cx : Cx) (L : Laws cx.z3) where
  open cx use {body, tcx.{Ty, kind, place_ty}, z3.{BV}}
  open L use {Model, width, bits}

  -- The local `u` is within the five vectors, its variable is `v` and its length `n`.
  pub record At (s : St cx) (u : ℕ) (v : IntroVar BV) (n : ℕ) : Type 0 where
    pub at_var : get_elem? s.slice.var u ≡ some v
    pub at_len : get_elem? s.slice.len u ≡ some n
    pub ty_at : TyWithIndex Ty
    pub at_ty : get_elem? s.slice.ty u ≡ some ty_at
    pub layout_at : OwnershipLayout
    pub at_layout : get_elem? s.slice.layout u ≡ some layout_at
    pub taint_at : Taint Ty
    pub at_taint : get_elem? s.slice.taint u ≡ some taint_at

  -- The type of the place can own, so that a local may be constructed from it.
  abbrev pub CanOwn : Place Ty → Type 0
  CanOwn p =
      (t : TyWithIndex Ty) × (new_ty (kind (place_ty body.local_decls p).ty)
          (place_ty body.local_decls p).variant_index
        ≡ ret t)
      × (get_priority t ≡ 2)

  -- What the left side may be before the assignment: new, if the type of the right side can own, or
  -- initialised at the type of the right side.
  abbrev pub Fits :
      (s : St cx) (lu ru n k : ℕ) (x : BV) (r : Place Ty) (v : IntroVar BV)
      → At s lu v k
      → At s ru (init x) n
      → Type 0
  Fits s lu ru n k x r declared a b = CanOwn r
  Fits s lu ru n k x r (init x0) a b = (a.ty_at ≡ b.ty_at) × (width x0 ≡ k)
  Fits s lu ru n k x r unsupported a b = ⊥

  -- What the assignment demands of the value that it overwrites: that it owned nothing.
  abbrev pub Overwritable : Model → ℕ → IntroVar BV → Type 0
  Overwritable m k (init x0) = bits m x0 ≡ nothing k
  Overwritable m k v = Unit

  pub ready :
      (s : St cx) (lu ru n k : ℕ) (x : BV) (r : Place Ty) (v : IntroVar BV) (a : At s lu v k)
      (b : At s ru (init x) n)
      → Fits s lu ru n k x r v a b
      → (s0 : St cx) × (prepare_whole cx lu ru r s ≡ ret (some (is_declared v), s0))
        × (s0.slice.var ≡ s.slice.var)
        × (s0.slice.len ≡ s.slice.len)
        × (s0.slice.taint ≡ s.slice.taint)
        × ((m : Model) → Models cx L m s0.solver ↔ (Models cx L m s.solver × Overwritable m k v))
  unfolding prepare_whole
  ready s lu ru n k x r declared a b c = (
    record s {
      slice = record s.slice {
        ty = set s.slice.ty lu b.ty_at;
        layout = set s.slice.layout lu b.layout_at;
      };
    },
    ground arith,
    refl,
    refl,
    refl,
    λ m. (λ h. (h, tt), λ h. h.0),
  )
  ready s lu ru n k x r (init x0) a b c =
      let (f, e, mean) = equated cx L x0 (zeros cx k) (c.1 ∙ sym (L.width-from_u64 0 k)) in
      (
        record s { goal = f ∷ s.goal; solver = f ∷ s.solver },
        ground arith,
        refl,
        refl,
        refl,
        λ m. (
          λ h. (h.1, (mean m).0 h.0 ∙ bits-zeros cx L m k),
          λ h. ((mean m).1 (h.1 ∙ sym (bits-zeros cx L m k)), h.0),
        ),
      )
  ready s lu ru n k x r unsupported a b c = absurd c

  pub taint_returns :
      (s : St cx) (lu ru : ℕ) {t u : Taint Ty}
      → get_elem? s.slice.taint lu ≡ some t
      → get_elem? s.slice.taint ru ≡ some u
      → (ts : List (Taint Ty)) × (handle_taint cx lu ru s
          ≡ ret (tt, record s { slice = record s.slice { taint = ts } }))
  unfolding handle_taint
  taint_returns s lu ru {t} {u} a b = elim (Bool-cases (is_untainted u)) [
    | inl e ↦ (s.slice.taint, ground arith)
    | inr e ↦ elim (Bool-cases (is_untainted t)) [
      | inl d ↦ (set s.slice.taint lu u, ground arith)
      | inr d ↦ (set s.slice.taint lu (taint_insert_all cx.tcx.Ty-discrete t u), ground arith)
    ]
  ]
