-- ===== src/Rustc.antt =====
-- What the analyses read of rustc: the compiler's type and MIR data, as far as the code under src/
-- matches on them, and the compiler's queries as a record of parameters.
pub mod Mir
pub mod Shape
use rul_checker.Prelude.{ℕ, Bool, true, false, List, Option, ℕ_discrete}
use Mir.{Place}

-- rustc_span::def_id::DefId, compared and hashed by value.
abbrev pub DefId : Type 0
DefId = ℕ

-- rustc_middle::ty::Region and Const, interned and compared by identity, and a name's
-- rustc_span::Symbol.
abbrev pub Region : Type 0
Region = ℕ

abbrev pub Const : Type 0
Const = ℕ

abbrev pub Symbol : Type 0
Symbol = ℕ

-- rustc_middle::ty::subst::GenericArgKind, what `unpack` returns.
pub data GenericArg (T : Type 0) : Type 0 where
  lifetime : Region → GenericArg T
  type_arg : T → GenericArg T
  const_arg : Const → GenericArg T

pub record FieldDef : Type 0 where
  pub field_did : DefId

pub record VariantDef : Type 0 where
  pub fields : List FieldDef

pub data AdtKind : Type 0 where
  struct union enum : AdtKind

-- rustc_middle::ty::AdtDef: `did()`, `adt_kind()`, `is_phantom_data()` and `variants()`.
pub record AdtDef : Type 0 where
  pub did : DefId
  pub adt_kind : AdtKind
  pub is_phantom_data : Bool
  pub variants : List VariantDef

abbrev pub is_enum : AdtKind → Bool
is_enum enum = true
is_enum _ = false

abbrev pub is_struct : AdtKind → Bool
is_struct struct = true
is_struct _ = false

abbrev pub is_union : AdtKind → Bool
is_union union = true
is_union _ = false

-- rustc_ast::Mutability.
pub data Mutability : Type 0 where
  mutable immutable : Mutability

-- rustc_middle::ty::{IntTy, UintTy, FloatTy}.
pub data IntTy : Type 0 where
  isize i8 i16 i32 i64 i128 : IntTy

pub data UintTy : Type 0 where
  usize u8 u16 u32 u64 u128 : UintTy

pub data FloatTy : Type 0 where
  f32 f64 : FloatTy

-- rustc_middle::ty::TyKind: the variants that the code under src/ matches on, with all that they
-- hold, since `TyWithIndex` compares it; `other` stands for the rest (function pointers, closures,
-- dyn, never and so on), which the code treats by a wildcard. An array has its length, a reference
-- its region, a pointer or a reference its mutability, a parameter its index and its name.
pub data TyKind (T : Type 0) : Type 0 where
  bool char str : TyKind T
  int : IntTy → TyKind T
  uint : UintTy → TyKind T
  float : FloatTy → TyKind T
  adt : AdtDef → List (GenericArg T) → TyKind T
  array : T → Const → TyKind T
  slice : T → TyKind T
  raw_ptr : T → Mutability → TyKind T
  ref : Region → T → Mutability → TyKind T
  tuple : List T → TyKind T
  param : ℕ → Symbol → TyKind T
  other : ℕ → TyKind T

unfoldable pub TyKind-discrete : {T : Type 0} → Discrete T → Discrete (TyKind T)
TyKind-discrete d = hlevel (d, ℕ_discrete)

-- `ty.is_unsafe_ptr()`, `ty.is_region_ptr()` and `ty.is_adt()`.
abbrev pub is_unsafe_ptr : {T : Type 0} → TyKind T → Bool
is_unsafe_ptr (raw_ptr t mutbl) = true
is_unsafe_ptr _ = false

abbrev pub is_region_ptr : {T : Type 0} → TyKind T → Bool
is_region_ptr (ref region t mutbl) = true
is_region_ptr _ = false

abbrev pub is_adt : {T : Type 0} → TyKind T → Bool
is_adt (adt d substs) = true
is_adt _ = false

-- rustc_middle::mir::tcx::PlaceTy.
pub record PlaceTy (T : Type 0) : Type 0 where
  pub ty : T
  pub variant_index : Option ℕ

-- `TyCtxt<'tcx>` and the methods of `Ty<'tcx>`: not code of this repository, so parameters.
pub record Tcx : Type 1 where
  -- an interned type, compared by identity
  pub Ty : Type 0
  pub Ty-discrete : Discrete Ty
  -- `ty.kind()`
  pub kind : Ty → TyKind Ty
  -- `tcx.type_of(did)`
  pub type_of : DefId → Ty
  -- `adtdef.all_fields()`
  pub all_fields : AdtDef → List FieldDef
  -- `field.ty(tcx, substs)`
  pub field_ty : FieldDef → List (GenericArg Ty) → Ty
  -- the types that `ty.super_visit_with(v)` visits, in order
  pub super_tys : Ty → List Ty
  -- `place.ty(&body.local_decls, tcx)`, given the types of the locals
  pub place_ty : List Ty → Place Ty → PlaceTy Ty
