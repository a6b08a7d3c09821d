-- ===== src/Tests/Types.antt =====
-- A crate with the definitions `struct Vec<T> { ptr: *mut T, owns: PhantomData<T> }`,
-- `struct Pair<T> { whole: T, rest: Vec<T> }` and `struct Node { children: Vec<Node> }`.
use rul_checker.Prelude.{
  ℕ, ◌<◌, ◌≤◌, ◌≡◌, refl, true, false, List, [], ◌∷◌, none, ◌==◌, if◌then◌else◌, arith, Bool, All,
}
use rul_checker.Rustc.{
  Tcx, TyKind, mutable, adt, raw_ptr, param, AdtDef, FieldDef, GenericArg, type_arg, struct, DefId,
}
use rul_checker.Rustc.Shape.{Shape, IsDefinition, dids_of, arg_tys, fields_of, params_of}
use rul_checker.TypeVisitor.{contains}

pub data CrateTy : Type 0 where
  param_t vec_t ptr_t phantom_t pair_t node_t vec_node ptr_node phantom_node : CrateTy

unfoldable pub CrateTy-discrete : Discrete CrateTy
CrateTy-discrete = hlevel

abbrev field : ℕ → FieldDef
field n = record { field_did = n }

abbrev struct_def : DefId → Bool → List FieldDef → AdtDef
struct_def did phantom fields = record {
  did = did;
  adt_kind = struct;
  is_phantom_data = phantom;
  variants = record { fields = fields } ∷ [];
}

abbrev pub vec_def : AdtDef
vec_def = struct_def 10 false (field 100 ∷ field 101 ∷ [])

abbrev pub phantom_def : AdtDef
phantom_def = struct_def 11 true []

abbrev pub pair_def : AdtDef
pair_def = struct_def 12 false (field 120 ∷ field 121 ∷ [])

abbrev pub node_def : AdtDef
node_def = struct_def 13 false (field 130 ∷ [])

abbrev pub kind_of : CrateTy → TyKind CrateTy
kind_of param_t = param 0 0
kind_of vec_t = adt vec_def (type_arg param_t ∷ [])
kind_of ptr_t = raw_ptr param_t mutable
kind_of phantom_t = adt phantom_def (type_arg param_t ∷ [])
kind_of pair_t = adt pair_def (type_arg param_t ∷ [])
kind_of node_t = adt node_def []
kind_of vec_node = adt vec_def (type_arg node_t ∷ [])
kind_of ptr_node = raw_ptr node_t mutable
kind_of phantom_node = adt phantom_def (type_arg node_t ∷ [])

abbrev supers : CrateTy → List CrateTy
supers param_t = []
supers node_t = []
supers vec_node = node_t ∷ []
supers ptr_node = node_t ∷ []
supers phantom_node = node_t ∷ []
supers _ = param_t ∷ []

abbrev fields_by_did : DefId → List FieldDef
fields_by_did d =
    if d == 10
    then field 100 ∷ field 101 ∷ []
    else if d == 12
    then field 120 ∷ field 121 ∷ []
    else if d == 13
    then field 130 ∷ []
    else []

-- The type of a field in a definition over the parameter, or over `Node`.
abbrev over_param : DefId → CrateTy
over_param f =
    if f == 100
    then ptr_t
    else if f == 101
    then phantom_t
    else if f == 120
    then param_t
    else if f == 121
    then vec_t
    else vec_node

abbrev over_node : DefId → CrateTy
over_node f = if f == 100 then ptr_node else if f == 101 then phantom_node else vec_node

abbrev ty_of_field : FieldDef → List (GenericArg CrateTy) → CrateTy
ty_of_field f (type_arg node_t ∷ _) = over_node f.field_did
ty_of_field f _ = over_param f.field_did

abbrev definition : DefId → CrateTy
definition d =
    if d == 10 then vec_t else if d == 11 then phantom_t else if d == 12 then pair_t else node_t

abbrev pub crate_tcx : Tcx
crate_tcx = record {
  Ty = CrateTy;
  Ty-discrete = CrateTy-discrete;
  kind = kind_of;
  type_of = definition;
  all_fields = λ d. fields_by_did d.did;
  field_ty = ty_of_field;
  super_tys = supers;
  place_ty = λ locals p. record { ty = param_t; variant_index = none };
}

abbrev pub rank_of : CrateTy → ℕ
rank_of param_t = 0
rank_of node_t = 0
rank_of _ = 1

abbrev width_of : CrateTy → ℕ
width_of node_t = 0
width_of vec_node = 0
width_of ptr_node = 0
width_of phantom_node = 0
width_of _ = 1

pub rank_top : (t : CrateTy) → rank_of t ≤ 1
rank_top param_t = omega arith
rank_top node_t = omega arith
rank_top _ = omega arith

pub rank_super : (t : CrateTy) → All (λ u. rank_of u < rank_of t) (supers t)
rank_super param_t = tt
rank_super node_t = tt
rank_super vec_node = (omega arith, tt)
rank_super ptr_node = (omega arith, tt)
rank_super phantom_node = (omega arith, tt)
rank_super _ = (omega arith, tt)

pub rank_args : (t : CrateTy) → All (λ u. rank_of u < rank_of t) (arg_tys (kind_of t))
rank_args vec_t = (omega arith, tt)
rank_args phantom_t = (omega arith, tt)
rank_args pair_t = (omega arith, tt)
rank_args vec_node = (omega arith, tt)
rank_args phantom_node = (omega arith, tt)
rank_args _ = tt

pub width_super : (t : CrateTy) → All (λ u. width_of u ≤ width_of t) (supers t)
width_super param_t = tt
width_super node_t = tt
width_super vec_node = (omega arith, tt)
width_super ptr_node = (omega arith, tt)
width_super phantom_node = (omega arith, tt)
width_super _ = (omega arith, tt)

pub width_args : (t : CrateTy) → All (λ u. width_of u ≤ width_of t) (arg_tys (kind_of t))
width_args vec_t = (omega arith, tt)
width_args phantom_t = (omega arith, tt)
width_args pair_t = (omega arith, tt)
width_args vec_node = (omega arith, tt)
width_args phantom_node = (omega arith, tt)
width_args _ = tt

pub width_fields :
    (t : CrateTy) → All (λ u. width_of u ≤ width_of t) (fields_of crate_tcx (kind_of t))
width_fields vec_t = (omega arith, (omega arith, tt))
width_fields pair_t = (omega arith, (omega arith, tt))
width_fields node_t = (omega arith, tt)
width_fields vec_node = (omega arith, (omega arith, tt))
width_fields _ = tt

pub width_param : (t : CrateTy) → All (λ i. i < width_of t) (params_of (kind_of t))
width_param param_t = (omega arith, tt)
width_param _ = tt

abbrev pub crate_shape : Shape crate_tcx
crate_shape = record {
  rank = rank_of;
  top = 1;
  width = width_of;
  rank_top = rank_top;
  rank_super = rank_super;
  rank_args = rank_args;
  width_super = width_super;
  width_args = width_args;
  width_fields = width_fields;
  width_param = width_param;
}

abbrev pub crate_dids : List DefId
crate_dids = 10 ∷ 11 ∷ 12 ∷ 13 ∷ []

pub everything_recorded :
    (t : CrateTy) → All (λ d. contains crate_dids d ≡ true) (dids_of (kind_of t))
everything_recorded vec_t = (refl, tt)
everything_recorded phantom_t = (refl, tt)
everything_recorded pair_t = (refl, tt)
everything_recorded node_t = (refl, tt)
everything_recorded vec_node = (refl, tt)
everything_recorded phantom_node = (refl, tt)
everything_recorded _ = tt

pub definitions :
    All (λ d. IsDefinition crate_tcx crate_shape (kind_of (crate_tcx.type_of d))) crate_dids
definitions = (
  (((omega arith, (omega arith, tt)), tt), (omega arith, (omega arith, tt)), λ h. refl),
  (
    ((tt, tt), tt, λ h. refl),
    (
      (((omega arith, (omega arith, tt)), tt), (omega arith, (omega arith, tt)), λ h. refl),
      ((((omega arith, tt), tt), (omega arith, tt), λ h. refl), tt),
    ),
  ),
)
