-- ===== src/Ownership.antt =====
-- src/analysis/type_analysis/ownership.rs and the type aliases of src/analysis/type_analysis.rs:
-- who owns the heap behind a type, field by field.
use rul_checker.Prelude.{Bool, true, false, ◌||◌, List, [], ◌∷◌, ◌++◌, Option, if◌then◌else◌}
use rul_checker.Rustc.{DefId}

pub data RawTypeOwner : Type 0 where
  owned unowned uninit : RawTypeOwner

abbrev pub is_owned : RawTypeOwner → Bool
is_owned owned = true
is_owned unowned = false
is_owned uninit = false

abbrev pub OwnershipLayout : Type 0
OwnershipLayout = List RawTypeOwner

abbrev pub RustBv : Type 0
RustBv = List Bool

-- `HashMap<DefId, Vec<(RawTypeOwner, Vec<bool>)>>`: one unit for each variant of the type.
abbrev pub OwnerUnit : Type 0
OwnerUnit = RawTypeOwner × List Bool

abbrev pub AdtOwner : Type 0
AdtOwner = DefId → Option (List OwnerUnit)

pub record OwnershipLayoutResult : Type 0 where
  pub layout : OwnershipLayout
  pub param : Bool
  pub requirement : Bool
  pub owned_flag : Bool

abbrev pub new_result : OwnershipLayoutResult
new_result = record { layout = []; param = false; requirement = false; owned_flag = false }

-- What `DefaultOwnership` hands over: its `res`, `param` and `ptr`.
pub record Verdict : Type 0 where
  pub res : RawTypeOwner
  pub param : Bool
  pub ptr : Bool

unfoldable pub update_from_default_ownership_visitor :
    OwnershipLayoutResult → Verdict → OwnershipLayoutResult
update_from_default_ownership_visitor r d = record {
  layout = r.layout ++ d.res ∷ [];
  param = d.param;
  requirement = if is_owned d.res || d.ptr then true else r.requirement;
  owned_flag = if is_owned d.res then true else r.owned_flag;
}
