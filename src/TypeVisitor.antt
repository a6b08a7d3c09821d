-- ===== src/TypeVisitor.antt =====
-- src/analysis/type_analysis/type_visitor.rs: what the visitors of a type share, and `TyWithIndex`.
-- A visitor is a function of the type and its own state; rustc's `super_visit_with` is the list of
-- component types, visited in order until one breaks. A child module has each visitor.
pub mod DefaultOwnership
pub mod RawGeneric
pub mod Propagation
pub mod FindPtr
pub mod Phases
pub mod Total
pub mod Collector
use mathlib.Core.List.{dec_mem, erase}
use rul_checker.Prelude.{
  ℕ, ◌==◌, ◌||◌, Bool, true, false, List, [], ◌∷◌, length, if◌then◌else◌, Option, none, some,
  get_elem?, map,
}
use rul_checker.Run.{Run, ret, ◌>>=◌, index}
use rul_checker.Rustc.{
  Tcx, TyKind, tuple, adt, array, param, raw_ptr, ref, bool, char, int, uint, float, str, slice,
  other, VariantDef, AdtDef, is_enum, DefId, FieldDef, GenericArg,
}

-- std::ops::ControlFlow<()>
pub data ControlFlow : Type 0 where
  continue break : ControlFlow

-- What the visit of one type does: it may panic, and returns its verdict with the new state.
abbrev pub Visit : Type 0 → Type 0 → Type 0
Visit T S = T → S → Run (ControlFlow × S)

-- `super_visit_with`: a break of one component ends the loop.
unfoldable pub visit_all : {T S : Type 0} → Visit T S → List T → S → Run (ControlFlow × S)
visit_all v [] s = ret (continue, s)
visit_all v (t ∷ ts) s =
    v t s >>= λ r. elim r.0 [ continue ↦ visit_all v ts r.1 | break ↦ ret (break, r.1) ]

-- `for field in … { field_ty.visit_with(self); }`: the verdicts are not read.
unfoldable pub visit_each : {T S : Type 0} → Visit T S → List T → S → Run S
visit_each v [] s = ret s
visit_each v (t ∷ ts) s = v t s >>= λ r. visit_each v ts r.1

-- A `HashSet<DefId>`: `contains`, `insert` (of what is not there) and `remove`.
abbrev pub contains : List DefId → DefId → Bool
contains [] d = false
contains (e ∷ es) d = d == e || contains es d

abbrev pub remove : List DefId → DefId → List DefId
remove [] d = []
remove (e ∷ es) d = if d == e then remove es d else e ∷ remove es d

-- `insert`
abbrev pub insert : List DefId → DefId → List DefId
insert es d = if contains es d then es else d ∷ es

-- `for field in adtdef.all_fields() { field.ty(tcx, substs) … }`: the types that the loop visits.
module _ (tcx : Tcx) where
  open tcx use {Ty, all_fields, field_ty}

  abbrev pub field_tys : List FieldDef → List (GenericArg Ty) → List Ty
  field_tys fs substs = map (λ f. field_ty f substs) fs

  abbrev pub all_field_tys : AdtDef → List (GenericArg Ty) → List Ty
  all_field_tys d substs = field_tys (all_fields d) substs

-- (number of fields, kind, variant, whether it can own): `None` is an unsupported type.
abbrev pub TyWithIndex : Type 0 → Type 0
TyWithIndex T = Option (ℕ × TyKind T × Option ℕ × Bool)

abbrev pub some_ty : {T : Type 0} → ℕ → TyKind T → Option ℕ → Bool → TyWithIndex T
some_ty len k vidx needed = some (len, k, vidx, needed)

abbrev enum_ty : {T : Type 0} → AdtDef → TyKind T → Option ℕ → Run (TyWithIndex T)
enum_ty d k none = ret none
enum_ty d k (some idx) =
    index d.variants idx >>= λ v. ret (some_ty (length v.fields) k (some idx) true)

-- `TyWithIndex::new(ty, vidx)`, by the kind of the type.
unfoldable pub new_ty : {T : Type 0} → TyKind T → Option ℕ → Run (TyWithIndex T)
new_ty (tuple list) vidx = ret (some_ty (length list) (tuple list) none true)
new_ty (adt d substs) vidx =
    if is_enum d.adt_kind
    then enum_ty d (adt d substs) vidx
    else (index d.variants 0 >>= λ v. ret (some_ty (length v.fields) (adt d substs) none true))
new_ty (array t size) vidx = ret (some_ty 1 (array t size) none true)
new_ty (param i name) vidx = ret (some_ty 1 (param i name) none true)
new_ty (raw_ptr t mutbl) vidx = ret (some_ty 1 (raw_ptr t mutbl) none true)
new_ty (ref region t mutbl) vidx = ret (some_ty 1 (ref region t mutbl) none true)
new_ty bool vidx = ret (some_ty 1 bool none false)
new_ty char vidx = ret (some_ty 1 char none false)
new_ty (int ity) vidx = ret (some_ty 1 (int ity) none false)
new_ty (uint uty) vidx = ret (some_ty 1 (uint uty) none false)
new_ty (float fty) vidx = ret (some_ty 1 (float fty) none false)
new_ty str vidx = ret (some_ty 1 str none false)
new_ty (slice t) vidx = ret (some_ty 1 (slice t) none false)
new_ty (other n) vidx = ret none

-- 0 -> unsupported, 1 -> trivial, 2 -> needed
unfoldable pub get_priority : {T : Type 0} → TyWithIndex T → ℕ
get_priority none = 0
get_priority (some (len, k, vidx, needed)) = if len == 0 then 1 else if needed then 2 else 1
