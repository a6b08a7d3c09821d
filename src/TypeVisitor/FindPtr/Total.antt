-- ===== src/TypeVisitor/FindPtr/Total.antt =====
-- The visits of `FindPtr` return, also on recursive types.
use rul_checker.Prelude.{
  ℕ, suc, ◌+◌, ◌*◌, ◌<◌, ◌≤◌, ◌≡◌, refl, true, false, List, ◌∷◌, arith, All, All-true, Bool-cases,
  inl, inr,
}
use rul_checker.Run.{Returns, >>=-Returns}
use rul_checker.Rustc.{Tcx, TyKind, tuple, adt, raw_ptr, ref, DefId, is_struct}
use rul_checker.Rustc.Shape.{Shape, fields_of, dids_of}
use rul_checker.TypeVisitor.{Visit, visit_each, contains, remove, all_field_tys}
use rul_checker.TypeVisitor.FindPtr.{FindPtr, visit_ptr_kind, visit_ptr}
use rul_checker.TypeVisitor.Total.Unique.{Grows, Grows-refl, Grows-inside, missing, missing-cons}
use rul_checker.TypeVisitor.Total.Nested.{Returning, visit_parts, visit_fields, Returning-Step}

-- A pointer that was found stays found.
abbrev Kept : FindPtr → FindPtr → Type 0
Kept a b = a.ptr ≡ true → b.ptr ≡ true

Kept-trans : (a b c : FindPtr) → Kept a b → Kept b c → Kept a c
Kept-trans a b c h k e = k (h e)

abbrev Any : {A : Type 0} → A → Type 0
Any a = Unit

abbrev Held : FindPtr → FindPtr → Type 0
Held a b = Grows a.unique b.unique × Kept a b

Held-refl : (s : FindPtr) → Held s s
Held-refl s = (Grows-refl s.unique, λ e. e)

-- One more definition, then the fields, then one less.
Held-remove :
    (s s' : FindPtr) (d : DefId)
    → contains s.unique d ≡ false
    → Held (record s { unique = d ∷ s.unique }) s'
    → Held s (record s' { unique = remove s'.unique d })
Held-remove s s' d new h = (Grows-inside s.unique s'.unique d new h.0, h.1)

module _ (tcx : Tcx) (dids : List DefId) where
  open tcx use {Ty, kind, super_tys}

  abbrev Found : Visit Ty FindPtr → ℕ → Ty → Type 0
  Found v = Returning (λ s. s.unique) Kept (λ s e. e) Kept-trans Any (λ a b h k. tt) dids v

  visit_ptr_kind-Returns :
      (v : Visit Ty FindPtr) (m : ℕ) (ty : Ty) (k : TyKind Ty)
      → All (λ d. contains dids d ≡ true) (dids_of k)
      → ((m' : ℕ) → m' < m → All (Found v m') (fields_of tcx k))
      → All (Found v m) (super_tys ty)
      → (s : FindPtr) → (missing dids s.unique ≤ m) × Any s
      → Returns (λ r. Held s r.1) (visit_ptr_kind tcx v ty k s)
  unfolding visit_ptr_kind
  visit_ptr_kind-Returns v m ty (adt d substs) known fields parts s h =
      elim (Bool-cases (is_struct d.adt_kind)) [
        | inr e ↦ rw e (Held-refl s)
        | inl e ↦ elim (Bool-cases (contains s.unique d.did)) [
          | inl met ↦ rw (e, met) (Held-refl s)
          | inr new ↦
              (let less = missing-cons dids s.unique d.did new known.0 in
                let most = h.0 in
                rw (e, new)
                  (>>=-Returns (λ s'. Held (record s { unique = d.did ∷ s.unique }) s') _
                    (visit_each v (all_field_tys tcx d substs) _) _
                    (visit_fields (λ x. x.unique) Kept (λ x y. y) Kept-trans Any (λ a b x y. tt)
                      dids v (missing dids (d.did ∷ s.unique)) (all_field_tys tcx d substs) _
                      (fields (missing dids (d.did ∷ s.unique)) (omega arith)) (omega arith, tt))
                    (λ s' k. Held-remove s s' d.did new k)))
        ]
      ]
  visit_ptr_kind-Returns v m ty (tuple ts) known fields parts s h =
      visit_parts (λ x. x.unique) Kept (λ x y. y) Kept-trans Any (λ a b x y. tt) dids v m
        (super_tys ty) s parts h
  visit_ptr_kind-Returns v m ty (raw_ptr t mutbl) known fields parts s h =
      (Grows-refl s.unique, λ e. refl)
  visit_ptr_kind-Returns v m ty (ref region t mutbl) known fields parts s h =
      (Grows-refl s.unique, λ e. refl)
  visit_ptr_kind-Returns v m ty k known fields parts s h = Held-refl s

  pub visit_ptr-Returns :
      (shape : Shape tcx)
      → ((t : Ty) → All (λ d. contains dids d ≡ true) (dids_of (kind t)))
      → (fuel : ℕ) (t : Ty) (s : FindPtr)
      → missing dids s.unique * suc shape.top + shape.rank t < fuel
      → Returns (λ r. Held s r.1) (visit_ptr tcx fuel t s)
  unfolding visit_ptr
  visit_ptr-Returns shape known fuel t s h =
      Returning-Step (λ x. x.unique) Kept (λ x y. y) Kept-trans Any (λ a b x y. tt) dids tcx shape
        Any (λ u _. All-true (fields_of tcx (kind u))) (λ u _. All-true (super_tys u))
        (visit_ptr tcx)
        (λ f m u _ _ fields parts s' k.
          visit_ptr_kind-Returns (visit_ptr tcx f) m u (kind u) (known u) fields parts s' k)
        fuel (missing dids s.unique) t h tt s (omega arith, tt)
