-- ===== src/TypeVisitor/Collector/Reached.antt =====
-- Every definition that a type reaches, through fields, arguments, pointers and so on, is recorded.
use rul_checker.Prelude.{
  ℕ, zero, suc, ◌++◌, map, ◌≡◌, refl, true, List, [], ◌∷◌, some, All-get, get_elem?, Bool-cases,
  inl, inr,
}
use rul_checker.Rustc.{
  Tcx, adt, array, slice, raw_ptr, ref, tuple, is_adt, AdtDef, FieldDef, Region, Const, Mutability,
  GenericArg, type_arg, lifetime, const_arg,
}
use rul_checker.TypeVisitor.{contains, all_field_tys}
use rul_checker.Rustc.Shape.{type_args}
use rul_checker.TypeVisitor.Collector.{TypeAnalysis, has_ty, parts}
use rul_checker.TypeVisitor.Collector.Walk.{itself, within, Covered, Explored}

-- A direct component of a type: a field of any variant or a type argument of an ADT, the element of an
-- array or a slice, what a pointer or a reference points to, a component of a tuple.
pub data Component (tcx : Tcx) (t : tcx.Ty) : tcx.Ty → Type 0 where
  field :
      (d : AdtDef) (substs : List (GenericArg tcx.Ty)) (i : ℕ) (f : FieldDef)
      → tcx.kind t ≡ adt d substs
      → get_elem? (tcx.all_fields d) i ≡ some f
      → Component tcx t (tcx.field_ty f substs)
  argument :
      (d : AdtDef) (substs : List (GenericArg tcx.Ty)) (i : ℕ) (u : tcx.Ty)
      → tcx.kind t ≡ adt d substs
      → get_elem? substs i ≡ some (type_arg u)
      → Component tcx t u
  array_element : (u : tcx.Ty) (size : Const) → tcx.kind t ≡ array u size → Component tcx t u
  slice_element : (u : tcx.Ty) → tcx.kind t ≡ slice u → Component tcx t u
  pointee : (u : tcx.Ty) (mutbl : Mutability) → tcx.kind t ≡ raw_ptr u mutbl → Component tcx t u
  referent :
      (u : tcx.Ty) (region : Region) (mutbl : Mutability)
      → tcx.kind t ≡ ref region u mutbl
      → Component tcx t u
  tuple_component :
      (ts : List tcx.Ty) (i : ℕ) (u : tcx.Ty)
      → tcx.kind t ≡ tuple ts
      → get_elem? ts i ≡ some u
      → Component tcx t u

-- A type that can be reached from another by going to a component again and again.
pub data Reaches (tcx : Tcx) : tcx.Ty → tcx.Ty → Type 0 where
  start : {t : tcx.Ty} → Reaches tcx t t
  go : {t u w : tcx.Ty} → Component tcx t u → Reaches tcx u w → Reaches tcx t w

-- The element is in the list, at some index.
abbrev At : {A : Type 0} → A → List A → Type 0
At x xs = (i : ℕ) × (get_elem? xs i ≡ some x)

At-append_left :
    {A : Type 0} (x : A) (xs ys : List A) (i : ℕ)
    → get_elem? xs i ≡ some x
    → get_elem? (xs ++ ys) i ≡ some x
At-append_left x [] ys i e = cc
At-append_left x (z ∷ xs) ys zero e = e
At-append_left x (z ∷ xs) ys (suc i) e = At-append_left x xs ys i e

At-append_right : {A : Type 0} (x : A) (xs ys : List A) → At x ys → At x (xs ++ ys)
At-append_right x [] ys h = h
At-append_right x (z ∷ xs) ys h = let r = At-append_right x xs ys h in (suc r.0, r.1)

get_elem?-map :
    {A B : Type 0} (f : A → B) (xs : List A) (i : ℕ) (x : A)
    → get_elem? xs i ≡ some x
    → get_elem? (map f xs) i ≡ some (f x)
get_elem?-map f [] i x e = cc
get_elem?-map f (y ∷ xs) zero x e = let same : y ≡ x = cc in rw same refl
get_elem?-map f (y ∷ xs) (suc i) x e = get_elem?-map f xs i x e

At-type_args :
    {T : Type 0} (substs : List (GenericArg T)) (i : ℕ) (u : T)
    → get_elem? substs i ≡ some (type_arg u)
    → At u (type_args substs)
At-type_args [] i u e = cc
At-type_args (type_arg t ∷ substs) zero u e = let same : t ≡ u = cc in (0, rw same refl)
At-type_args (lifetime region ∷ substs) zero u e = cc
At-type_args (const_arg ct ∷ substs) zero u e = cc
At-type_args (type_arg t ∷ substs) (suc i) u e = let r = At-type_args substs i u e in (suc r.0, r.1)
At-type_args (lifetime region ∷ substs) (suc i) u e = At-type_args substs i u e
At-type_args (const_arg ct ∷ substs) (suc i) u e = At-type_args substs i u e

-- The collector goes to every component.
At-parts : (tcx : Tcx) (t u : tcx.Ty) → Component tcx t u → At u (parts tcx (tcx.kind t))
At-parts tcx t u (field d substs i f e k) = rw e (
  i,
  At-append_left _ _ (type_args substs) i
      (get_elem?-map (λ g. tcx.field_ty g substs) (tcx.all_fields d) i f k),
)
At-parts tcx t u (argument d substs i _ e k) =
    rw e (
      At-append_right u (all_field_tys tcx d substs) (type_args substs) (At-type_args substs i u k))
At-parts tcx t u (array_element _ size e) = rw e (0, refl)
At-parts tcx t u (slice_element _ e) = rw e (0, refl)
At-parts tcx t u (pointee _ mutbl e) = rw e (0, refl)
At-parts tcx t u (referent _ region mutbl e) = rw e (0, refl)
At-parts tcx t u (tuple_component ts i _ e k) = rw e (i, k)

module _ (tcx : Tcx) where
  open tcx use {Ty, kind}

  -- Every met type is explored.
  abbrev pub Closed : TypeAnalysis Ty → Type 0
  Closed s = (w : Ty) → has_ty tcx s.ty_map w ≡ true → Explored tcx s w

  Covered-part :
      (s : TypeAnalysis Ty) (t : Ty) (i : ℕ) {u : Ty}
      → Closed s
      → Covered tcx s t
      → get_elem? (parts tcx (kind t)) i ≡ some u
      → Covered tcx s u
  Covered-part s t i closed c e = elim (Bool-cases (is_adt (kind t))) [
    | inl is ↦ All-get (Covered tcx s) (parts tcx (kind t)) i (closed t (c t itself is)).1 e
    | inr no_adt ↦ λ w inside is. c w (within i no_adt e inside) is
  ]

  pub recorded :
      (s : TypeAnalysis Ty) (t w : Ty) (d : AdtDef) (substs : List (GenericArg Ty))
      → Closed s
      → Covered tcx s t
      → Reaches tcx t w
      → kind w ≡ adt d substs
      → contains s.adt_recorder d.did ≡ true
  recorded s t w d substs closed c start e = (rw e at (closed w (c w itself (rw e refl))).0).0
  recorded s t w d substs closed c (go {u} component rest) e =
      let at = At-parts tcx t u component in
      recorded s u w d substs closed (Covered-part s t at.0 closed c at.1) rest e
