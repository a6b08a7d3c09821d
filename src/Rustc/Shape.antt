-- ===== src/Rustc/Shape.antt =====
-- What the compiler guarantees of the types of a crate, of which there are finitely many: a rank
-- by which the parts of a type are smaller than the type, and a bound on the indices of the generic
-- parameters that it mentions, which its fields and arguments share.
use rul_checker.Prelude.{ℕ, ◌<◌, ◌≤◌, ◌≡◌, List, [], ◌∷◌, map, length, All, true}
use rul_checker.Rustc.{Tcx, TyKind, adt, param, GenericArg, type_arg, VariantDef, DefId, is_struct}

-- The types among generic arguments, the index of a parameter, and the definition of an ADT.
abbrev pub type_args : {T : Type 0} → List (GenericArg T) → List T
type_args [] = []
type_args (type_arg t ∷ args) = t ∷ type_args args
type_args (_ ∷ args) = type_args args

abbrev pub arg_tys : {T : Type 0} → TyKind T → List T
arg_tys (adt d substs) = type_args substs
arg_tys _ = []

abbrev pub params_of : {T : Type 0} → TyKind T → List ℕ
params_of (param i name) = i ∷ []
params_of _ = []

abbrev pub dids_of : {T : Type 0} → TyKind T → List DefId
dids_of (adt d substs) = d.did ∷ []
dids_of _ = []

-- The types of fields, all or those of each variant.
abbrev pub fields_of : (tcx : Tcx) → TyKind tcx.Ty → List tcx.Ty
fields_of tcx (adt d substs) = map (λ f. tcx.field_ty f substs) (tcx.all_fields d)
fields_of tcx _ = []

abbrev pub AllVariants :
    (tcx : Tcx) → (tcx.Ty → Type 0) → List (GenericArg tcx.Ty) → List VariantDef → Type 0
AllVariants tcx P substs variants =
    All (λ v. All P (map (λ f. tcx.field_ty f substs) v.fields)) variants

pub record Shape (tcx : Tcx) : Type 0 where
  pub rank : tcx.Ty → ℕ
  pub top : ℕ
  pub width : tcx.Ty → ℕ
  pub rank_top : (t : tcx.Ty) → rank t ≤ top
  pub rank_super : (t : tcx.Ty) → All (λ u. rank u < rank t) (tcx.super_tys t)
  pub rank_args : (t : tcx.Ty) → All (λ u. rank u < rank t) (arg_tys (tcx.kind t))
  pub width_super : (t : tcx.Ty) → All (λ u. width u ≤ width t) (tcx.super_tys t)
  pub width_args : (t : tcx.Ty) → All (λ u. width u ≤ width t) (arg_tys (tcx.kind t))
  pub width_fields : (t : tcx.Ty) → All (λ u. width u ≤ width t) (fields_of tcx (tcx.kind t))
  pub width_param : (t : tcx.Ty) → All (λ i. i < width t) (params_of (tcx.kind t))

-- `type_of(did)` is the ADT itself, with its own parameters for arguments; a struct has one variant.
abbrev pub IsDefinition : (tcx : Tcx) → Shape tcx → TyKind tcx.Ty → Type 0
IsDefinition tcx shape (adt d substs) =
    AllVariants tcx (λ u. shape.width u ≤ length substs) substs d.variants
    × All (λ u. shape.width u ≤ length substs) (fields_of tcx (adt d substs))
    × (is_struct d.adt_kind ≡ true → length d.variants ≡ 1)
IsDefinition tcx shape _ = ⊥
