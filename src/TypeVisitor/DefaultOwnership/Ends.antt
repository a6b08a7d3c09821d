-- ===== src/TypeVisitor/DefaultOwnership/Ends.antt =====
-- The fuel of the visits, by a rank of types.
use rul_checker.Prelude.{
  ℕ, zero, suc, ◌<◌, ◌≡◌, subst, Bool, true, false, List, [], ◌∷◌, some, arith, All, All-map,
  get_elem?, Bool-cases, inl, inr,
}
use rul_checker.Run.{
  Run, ret, ◌>>=◌, index, unwrap, Ends, >>=-Ends, >>=-Ends_of_ret, Ends-unwrap, unwrap-eq-ret,
}
use rul_checker.Rustc.{
  Tcx, TyKind, tuple, adt, array, param, raw_ptr, ref, bool, char, int, uint, float, str, slice,
  other, DefId, AdtDef, is_enum, GenericArg, type_arg, lifetime, const_arg,
}
use rul_checker.Rustc.Shape.{type_args, arg_tys}
use rul_checker.Ownership.{owned, unowned, uninit, RawTypeOwner, AdtOwner}
use rul_checker.TypeVisitor.{ControlFlow, continue, break, Visit, visit_all, contains}
use rul_checker.TypeVisitor.DefaultOwnership.{
  DefaultOwnership, expect_ty, visit_generics, visit_unit, visit_kind, visit_ty,
}

All-type_args :
    {T : Type 0} (P : T → Type 0) (substs : List (GenericArg T)) (i : ℕ) {t : T}
    → All P (type_args substs)
    → get_elem? substs i ≡ some (type_arg t)
    → P t
All-type_args P [] i h e = cc
All-type_args P (type_arg u ∷ args) zero {t} h e = let same : u ≡ t = cc in subst P same h.0
All-type_args P (lifetime region ∷ args) zero h e = cc
All-type_args P (const_arg ct ∷ args) zero h e = cc
All-type_args P (type_arg u ∷ args) (suc i) h e = All-type_args P args i h.1 e
All-type_args P (lifetime region ∷ args) (suc i) h e = All-type_args P args i h e
All-type_args P (const_arg ct ∷ args) (suc i) h e = All-type_args P args i h e

module _ {T : Type 0} (v : Visit T DefaultOwnership) where
  -- The visit of the type ends in every state.
  abbrev EndsAt : T → Type 0
  EndsAt t = (s : DefaultOwnership) → Ends (v t s)

  after :
      (c : ControlFlow) (rest : Run (ControlFlow × DefaultOwnership)) (s : DefaultOwnership)
      → Ends rest
      → Ends (elim c [ continue ↦ rest | break ↦ ret (break, s) ])
  after continue rest s h = h
  after break rest s h = tt

  visit_all-Ends : (ts : List T) (s : DefaultOwnership) → All EndsAt ts → Ends (visit_all v ts s)
  unfolding visit_all
  visit_all-Ends [] s h = tt
  visit_all-Ends (t ∷ ts) s h =
      >>=-Ends (v t s) _ (h.0 s)
        (λ r. after r.0 (visit_all v ts r.1) r.1 (visit_all-Ends ts r.1 h.1))

  visit_arg-Ends :
      {A : Type 0} (substs : List (GenericArg T)) (i : ℕ) (arg : GenericArg T) (f : T → Run A)
      → All EndsAt (type_args substs)
      → get_elem? substs i ≡ some arg
      → ((t : T) → EndsAt t → Ends (f t))
      → Ends (expect_ty arg >>= f)
  visit_arg-Ends substs i (type_arg t) f h e k = k t (All-type_args EndsAt substs i h e)
  visit_arg-Ends substs i (lifetime region) f h e k = tt
  visit_arg-Ends substs i (const_arg ct) f h e k = tt

  visit_generics-Ends :
      (substs : List (GenericArg T)) (did : DefId) (i : ℕ) (gs : List Bool) (s : DefaultOwnership)
      → All EndsAt (type_args substs)
      → Ends (visit_generics v substs did i gs s)
  unfolding visit_generics
  visit_generics-Ends substs did i [] s h = tt
  visit_generics-Ends substs did i (false ∷ gs) s h = visit_generics-Ends substs did (suc i) gs s h
  visit_generics-Ends substs did i (true ∷ gs) s h =
      >>=-Ends_of_ret (index substs i) _ (Ends-unwrap (get_elem? substs i)) (λ arg e.
        visit_arg-Ends substs i arg _ h (unwrap-eq-ret (get_elem? substs i) e) (λ t ends.
          >>=-Ends (v t _) _ (ends _) (λ r. visit_generics-Ends substs did (suc i) gs r.1 h)))

  visit_unit-Ends :
      (d : AdtDef) (substs : List (GenericArg T)) (units : List (RawTypeOwner × List Bool))
      (s : DefaultOwnership)
      → All EndsAt (type_args substs)
      → Ends (visit_unit v d substs units s)
  unfolding visit_unit
  visit_unit-Ends d substs [] s h = tt
  visit_unit-Ends d substs ((owned, generics) ∷ _) s h = tt
  visit_unit-Ends d substs ((unowned, generics) ∷ _) s h =
      >>=-Ends (visit_generics v substs d.did 0 generics s) _
        (visit_generics-Ends substs d.did 0 generics s h) (λ s'. tt)
  visit_unit-Ends d substs ((uninit, generics) ∷ _) s h = tt

module _ (tcx : Tcx) (owner : AdtOwner) where
  open tcx use {Ty, kind, super_tys}

  -- The parts of a type rank below it.
  abbrev pub IsRanked : (Ty → ℕ) → Type 0
  IsRanked rank =
      (t : Ty)
      → All (λ u. rank u < rank t) (super_tys t) × All (λ u. rank u < rank t) (arg_tys (kind t))

  visit_kind-Ends :
      (v : Visit Ty DefaultOwnership) (ty : Ty) (k : TyKind Ty) (s : DefaultOwnership)
      → All (EndsAt v) (super_tys ty)
      → All (EndsAt v) (arg_tys k)
      → Ends (visit_kind tcx owner v ty k s)
  unfolding visit_kind
  visit_kind-Ends v ty (adt d substs) s supers args = elim (Bool-cases (is_enum d.adt_kind)) [
    | inl e ↦ rw e tt
    | inr e ↦ elim (Bool-cases (contains s.unique d.did)) [
      | inl met ↦ rw (e, met) tt
      | inr new ↦
          rw (e, new)
            (>>=-Ends (unwrap (owner d.did)) _ (Ends-unwrap (owner d.did))
              (λ units. visit_unit-Ends v d substs units _ args))
    ]
  ]
  visit_kind-Ends v ty (array t size) s supers args = visit_all-Ends v (super_tys ty) s supers
  visit_kind-Ends v ty (tuple ts) s supers args = visit_all-Ends v (super_tys ty) s supers
  visit_kind-Ends v ty (param i name) s supers args = tt
  visit_kind-Ends v ty (raw_ptr t mutbl) s supers args = tt
  visit_kind-Ends v ty (ref region t mutbl) s supers args = tt
  visit_kind-Ends v ty bool s supers args = tt
  visit_kind-Ends v ty char s supers args = tt
  visit_kind-Ends v ty (int ity) s supers args = tt
  visit_kind-Ends v ty (uint uty) s supers args = tt
  visit_kind-Ends v ty (float fty) s supers args = tt
  visit_kind-Ends v ty str s supers args = tt
  visit_kind-Ends v ty (slice t) s supers args = tt
  visit_kind-Ends v ty (other n) s supers args = tt

  pub visit_ty-Ends :
      (rank : Ty → ℕ) (ranked : IsRanked rank) (fuel : ℕ) (t : Ty)
      → rank t < fuel
      → EndsAt (visit_ty tcx owner fuel) t
  unfolding visit_ty
  visit_ty-Ends rank ranked zero t h s = absurd (omega arith)
  visit_ty-Ends rank ranked (suc fuel) t h s =
      let part : (u : Ty) → rank u < rank t → EndsAt (visit_ty tcx owner fuel) u =
        λ u k. visit_ty-Ends rank ranked fuel u (omega arith) in
      visit_kind-Ends (visit_ty tcx owner fuel) t (kind t) s
        (All-map part (super_tys t) (ranked t).0) (All-map part (arg_tys (kind t)) (ranked t).1)
