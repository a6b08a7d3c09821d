-- ===== src/TypeVisitor/RawGeneric/Bounded.antt =====
-- The visits of `RawGenericFieldSubst` return, with parameters below the width of the type.
use rul_checker.Prelude.{
  ℕ, zero, suc, ◌<◌, ◌≤◌, List, arith, All, All-map, All-zip, Bool-cases, inl, inr,
}
use rul_checker.Run.{Returns}
use rul_checker.Rustc.{Tcx, TyKind, tuple, adt, array, param}
use rul_checker.Rustc.Shape.{Shape, params_of}
use rul_checker.TypeVisitor.{Visit, insert, contains, visit_all}
use rul_checker.TypeVisitor.RawGeneric.{Parameters, visit_subst_kind, visit_subst}
use rul_checker.TypeVisitor.Total.{visit_all-Returns}

abbrev pub IsBelow : ℕ → Parameters → Type 0
IsBelow n ps = All (λ p. p < n) ps

abbrev Kept : ℕ → Parameters → Parameters → Type 0
Kept n a b = IsBelow n a → IsBelow n b

insert-IsBelow : (n : ℕ) (s : Parameters) (i : ℕ) → i < n → IsBelow n s → IsBelow n (insert s i)
insert-IsBelow n s i h k = elim (Bool-cases (contains s i)) [ inl e ↦ rw e k | inr e ↦ rw e (h, k) ]

abbrev Bounded : {T : Type 0} → Visit T Parameters → ℕ → T → Type 0
Bounded v n t = (s : Parameters) → Unit {0} → Returns (λ r. Kept n s r.1) (v t s)

module _ (tcx : Tcx) (shape : Shape tcx) where
  open tcx use {Ty, kind, super_tys}
  open shape use {rank, width}

  parts-Returns :
      (v : Visit Ty Parameters) (n : ℕ) (ts : List Ty) (s : Parameters)
      → All (Bounded v n) ts
      → Returns (λ r. Kept n s r.1) (visit_all v ts s)
  parts-Returns v n ts s h =
      visit_all-Returns v (Kept n) (λ x. Unit) (λ x k. k) (λ a b c h' k x. k (h' x)) (λ a b x y. tt)
        ts s h tt

  visit_subst_kind-Returns :
      (v : Visit Ty Parameters) (n : ℕ) (ty : Ty) (k : TyKind Ty) (s : Parameters)
      → All (λ i. i < n) (params_of k)
      → All (Bounded v n) (super_tys ty)
      → Returns (λ r. Kept n s r.1) (visit_subst_kind tcx v ty k s)
  unfolding visit_subst_kind
  visit_subst_kind-Returns v n ty (array t size) s below parts =
      parts-Returns v n (super_tys ty) s parts
  visit_subst_kind-Returns v n ty (tuple ts) s below parts =
      parts-Returns v n (super_tys ty) s parts
  visit_subst_kind-Returns v n ty (adt d substs) s below parts =
      parts-Returns v n (super_tys ty) s parts
  visit_subst_kind-Returns v n ty (param i name) s below parts = insert-IsBelow n s i below.0
  visit_subst_kind-Returns v n ty k s below parts = λ h. h

  pub visit_subst-Returns :
      (n fuel : ℕ) (t : Ty) → rank t < fuel → width t ≤ n → Bounded (visit_subst tcx fuel) n t
  unfolding visit_subst
  visit_subst-Returns n zero t h w s u = absurd (omega arith)
  visit_subst-Returns n (suc fuel) t h w s u =
      visit_subst_kind-Returns (visit_subst tcx fuel) n t (kind t) s
        (All-map (λ i below. omega arith) (params_of (kind t)) (shape.width_param t))
        (All-zip (λ t' r w'. visit_subst-Returns n fuel t' (omega arith) (omega arith))
          (super_tys t) (shape.rank_super t) (shape.width_super t))
