-- ===== src/TypeVisitor/Collector/Met.antt =====
-- The types that the collector has met, against the finitely many types of the crate.
use rul_checker.Prelude.{
  ℕ, suc, ◌<◌, ◌≤◌, ◌≡◌, refl, subst, Bool, true, false, List, [], ◌∷◌, All, arith, if◌then◌else◌,
  Bool-cases, ◌⊎◌, inl, inr, length,
}
use rul_checker.Rustc.{Tcx, TyKind, adt}
use rul_checker.TypeVisitor.Collector.{has_ty, parts}

-- The parts of a type that is no ADT, which are visited at once.
abbrev pub inner : (tcx : Tcx) → TyKind tcx.Ty → List tcx.Ty
inner tcx (adt d substs) = []
inner tcx k = parts tcx k

-- All types, and a rank by which the inner parts are smaller.
pub record Finite (tcx : Tcx) : Type 0 where
  pub universe : List tcx.Ty
  pub complete : (t : tcx.Ty) → has_ty tcx universe t ≡ true
  pub rank : tcx.Ty → ℕ
  pub top : ℕ
  pub rank_top : (t : tcx.Ty) → rank t ≤ top
  pub rank_inner : (t : tcx.Ty) → All (λ u. rank u < rank t) (inner tcx (tcx.kind t))

module _ (tcx : Tcx) where
  open tcx use {Ty, Ty-discrete}

  abbrev pub Includes : List Ty → List Ty → Type 0
  Includes us vs = (t : Ty) → has_ty tcx us t ≡ true → has_ty tcx vs t ≡ true

  pub has_ty-cons_self : (t : Ty) (us : List Ty) → has_ty tcx (t ∷ us) t ≡ true
  has_ty-cons_self t us =
      elim (Ty-discrete t t)
        as (λ x. elim x as (λ y. Bool) [ yes p ↦ true | no p ↦ has_ty tcx us t ] ≡ true) [
          | yes p ↦ refl
          | no p ↦ absurd (p refl)
        ]

  pub Includes-cons : (t : Ty) (us : List Ty) → Includes us (t ∷ us)
  Includes-cons t us u h =
      elim (Ty-discrete u t)
        as (λ x. elim x as (λ y. Bool) [ yes p ↦ true | no p ↦ has_ty tcx us u ] ≡ true) [
          | yes p ↦ refl
          | no p ↦ h
        ]

  -- What is in the longer list is the new element or was there before.
  pub has_ty-cons :
      (t : Ty) (us : List Ty) (u : Ty)
      → has_ty tcx (t ∷ us) u ≡ true
      → (u ≡ t) ⊎ (has_ty tcx us u ≡ true)
  has_ty-cons t us u =
      elim (Ty-discrete u t)
        as (λ x.
          (elim x as (λ y. Bool) [ yes p ↦ true | no p ↦ has_ty tcx us u ] ≡ true)
          → (u ≡ t) ⊎ (has_ty tcx us u ≡ true)) [ yes p ↦ λ h. inl p | no p ↦ λ h. inr h ]

  -- How many types of a list were not met.
  pub unmet : List Ty → List Ty → ℕ
  unmet [] us = 0
  unmet (t ∷ ts) us = let n = unmet ts us in if has_ty tcx us t then n else suc n

  pub unmet_mono : (ts us vs : List Ty) → Includes us vs → unmet ts vs ≤ unmet ts us
  unfolding unmet
  unmet_mono [] us vs h = omega arith
  unmet_mono (t ∷ ts) us vs h = elim (Bool-cases (has_ty tcx us t)) [
    | inl met ↦ rw (met, h t met) (unmet_mono ts us vs h)
    | inr new ↦
        let ih = unmet_mono ts us vs h in
        elim (Bool-cases (has_ty tcx vs t)) [
          | inl met ↦ rw (new, met) (omega arith)
          | inr still ↦ rw (new, still) (omega arith)
        ]
  ]

  pub unmet-cons :
      (ts us : List Ty) (t : Ty)
      → has_ty tcx us t ≡ false
      → has_ty tcx ts t ≡ true
      → unmet ts (t ∷ us) < unmet ts us
  unfolding unmet
  unmet-cons [] us t h k = cc
  unmet-cons (u ∷ ts) us t h k = elim (has_ty-cons u ts t k) [
    | inl same ↦
        (let new : has_ty tcx us u ≡ false = subst (λ x. has_ty tcx us x ≡ false) same h in
          let met : has_ty tcx (t ∷ us) u ≡ true =
            subst (λ x. has_ty tcx (t ∷ us) x ≡ true) same (has_ty-cons_self t us) in
          let le = unmet_mono ts us (t ∷ us) (Includes-cons t us) in rw (new, met) (omega arith))
    | inr rest ↦
        (let ih = unmet-cons ts us t h rest in
          elim (Bool-cases (has_ty tcx us u)) [
            | inl met ↦ rw (met, Includes-cons t us u met) ih
            | inr new ↦ elim (Bool-cases (has_ty tcx (t ∷ us) u)) [
              | inl now ↦ rw (new, now) (omega arith)
              | inr still ↦ rw (new, still) (omega arith)
            ]
          ])
  ]

  pub unmet-le-length : (ts us : List Ty) → unmet ts us ≤ length ts
  unfolding unmet
  unmet-le-length [] us = omega arith
  unmet-le-length (t ∷ ts) us =
      let ih = unmet-le-length ts us in
      elim (Bool-cases (has_ty tcx us t)) [
        | inl met ↦ rw met (omega arith)
        | inr new ↦ rw new (omega arith)
      ]
