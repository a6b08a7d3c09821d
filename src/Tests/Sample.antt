-- ===== src/Tests/Sample.antt =====
-- A concrete compiler interface: the types 0 i32, 1 Box, 2 *mut Box, 3 (Box, i32), 4 a parameter,
-- 5 &Box, 6 an enum with the variants A(Box) and B, 7 Vec of 1, 8 a function pointer.
use rul_checker.Prelude.{
  ℕ, true, false, List, [], ◌∷◌, none, some, get_or, ◌==◌, if◌then◌else◌, ℕ_discrete,
}
use rul_checker.Rustc.{
  Tcx, TyKind, i32, mutable, immutable, int, adt, raw_ptr, tuple, param, ref, other, AdtDef,
  FieldDef, type_arg, struct, enum,
}
use rul_checker.Rustc.Mir.{Place, ProjectionElem, field_elem, Body}
use rul_checker.Ownership.{AdtOwner, owned, unowned}
use rul_checker.Flow.{Cx, St}
use rul_checker.Slice.{init, declared}
use rul_checker.Z3.Ast.{ast, Term, const}

abbrev pub field : ℕ → FieldDef
field n = record { field_did = n }

abbrev pub box_def : AdtDef
box_def = record {
  did = 10;
  adt_kind = struct;
  is_phantom_data = false;
  variants = record { fields = field 100 ∷ [] } ∷ [];
}

abbrev pub option_def : AdtDef
option_def = record {
  did = 11;
  adt_kind = enum;
  is_phantom_data = false;
  variants = record { fields = field 110 ∷ [] } ∷ record { fields = [] } ∷ [];
}

abbrev pub vec_def : AdtDef
vec_def = record {
  did = 12;
  adt_kind = struct;
  is_phantom_data = false;
  variants = record { fields = field 120 ∷ field 121 ∷ [] } ∷ [];
}

abbrev kinds : List (TyKind ℕ)
kinds =
    int i32
    ∷ adt box_def []
    ∷ raw_ptr 1 mutable
    ∷ tuple (1 ∷ 0 ∷ [])
    ∷ param 0 0
    ∷ ref 0 1 immutable
    ∷ adt option_def []
    ∷ adt vec_def (type_arg 1 ∷ [])
    ∷ other 0
    ∷ raw_ptr 1 immutable
    ∷ []

abbrev def_fields : AdtDef → List FieldDef
def_fields d =
    if d.did == 10
    then field 100 ∷ []
    else if d.did == 11
    then field 110 ∷ []
    else field 120 ∷ field 121 ∷ []

-- The fields: a Box holds a pointer, the variant A a Box, the Vec its element and an i32.
abbrev type_of_field : FieldDef → ℕ
type_of_field f =
    if f.field_did == 100
    then 2
    else if f.field_did == 110
    then 1
    else if f.field_did == 120
    then 1
    else 0

abbrev projected : ℕ → List (ProjectionElem ℕ) → ℕ
projected t [] = t
projected t (field_elem i u ∷ es) = projected u es
projected t (_ ∷ es) = projected t es

abbrev pub components : TyKind ℕ → List ℕ
components (tuple ts) = ts
components _ = []

abbrev pub sample_tcx : Tcx
sample_tcx = record {
  Ty = ℕ;
  Ty-discrete = ℕ_discrete;
  kind = λ t. get_or kinds t (int i32);
  type_of = λ d. if d == 10 then 1 else if d == 11 then 6 else 7;
  all_fields = def_fields;
  field_ty = λ f substs. type_of_field f;
  super_tys = λ t. components (get_or kinds t (int i32));
  place_ty = λ locals p. record {
    ty = projected (get_or locals p.local 0) p.projection;
    variant_index = none;
  };
}

-- A Box owns; the Vec owns if its element does.
abbrev pub sample_owner : AdtOwner
sample_owner d =
    if d == 10
    then some ((owned, []) ∷ [])
    else if d == 12
    then some ((unowned, true ∷ []) ∷ [])
    else none

-- fn(_1: Box) with the locals _2: (Box, i32), _3: (Box, i32), _4: *mut Box and _5: Box.
abbrev pub sample_body : Body ℕ
sample_body = record { local_decls = 0 ∷ 1 ∷ 3 ∷ 3 ∷ 2 ∷ 1 ∷ []; arg_count = 1; basic_blocks = [] }

abbrev pub sample_cx : Cx
sample_cx = record {
  tcx = sample_tcx;
  z3 = ast;
  body = sample_body;
  adt_owner = sample_owner;
  fuel = 5;
  graph = record { e = []; pre = []; topo = [] };
}

abbrev pub at : ℕ → Place ℕ
at u = record { local = u; projection = [] }

abbrev pub old_bv : Term
old_bv = const [] 2

-- _2 holds a pair of type 3 with two bits; _3 is not yet assigned.
abbrev pub before : St sample_cx
before = record {
  slice = record {
    taint = [] ∷ [] ∷ [] ∷ [] ∷ [];
    var = declared ∷ declared ∷ init old_bv ∷ declared ∷ [];
    len = 0 ∷ 0 ∷ 2 ∷ 0 ∷ [];
    ty = none ∷ none ∷ some (2, tuple (1 ∷ 0 ∷ []), none, true) ∷ none ∷ [];
    layout = [] ∷ [] ∷ (owned ∷ unowned ∷ []) ∷ [] ∷ [];
  };
  goal = [];
  solver = [];
  taint_flag = false;
  icx = record { taint = []; var = []; len = []; ty = []; layout = [] };
}
