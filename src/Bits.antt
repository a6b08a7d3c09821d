-- ===== src/Bits.antt =====
-- The bit vectors of src/analysis/flow_analysis/intro_visitor.rs as the Rust side builds them:
-- a layout as a list of Booleans, and that list as a `u64`.
pub mod Layouts
pub mod Words
pub mod Fields
use rul_checker.Prelude.{
  ℕ, zero, suc, ◌+◌, ◌*◌, ◌%◌, ◌^◌, Bool, true, false, ◌||◌, List, [], ◌∷◌, Option, ◌==◌, length,
  if◌then◌else◌,
}
use rul_checker.Run.{Run, ret, panic}
use rul_checker.Ownership.{RawTypeOwner, owned, unowned, uninit, OwnershipLayout, RustBv}

-- An item that is `Uninit` is reported and left out.
unfoldable pub ownership_layout_to_rustbv : OwnershipLayout → RustBv
ownership_layout_to_rustbv [] = []
ownership_layout_to_rustbv (uninit ∷ items) = ownership_layout_to_rustbv items
ownership_layout_to_rustbv (unowned ∷ items) = false ∷ ownership_layout_to_rustbv items
ownership_layout_to_rustbv (owned ∷ items) = true ∷ ownership_layout_to_rustbv items

unfoldable pub reverse_ownership_layout_to_rustbv : OwnershipLayout → RustBv
reverse_ownership_layout_to_rustbv [] = []
reverse_ownership_layout_to_rustbv (uninit ∷ items) = reverse_ownership_layout_to_rustbv items
reverse_ownership_layout_to_rustbv (unowned ∷ items) =
    true ∷ reverse_ownership_layout_to_rustbv items
reverse_ownership_layout_to_rustbv (owned ∷ items) =
    false ∷ reverse_ownership_layout_to_rustbv items

-- The loop `for idx in 0..a.len()`, on two vectors of one length.
abbrev pub zip_or : RustBv → RustBv → RustBv
zip_or [] b = []
zip_or (x ∷ a) [] = []
zip_or (x ∷ a) (y ∷ b) = (x || y) ∷ zip_or a b

-- `assert_eq!(a.len(), b.len())` stands first.
unfoldable pub rustbv_merge : RustBv → RustBv → Run RustBv
rustbv_merge a b = if length a == length b then ret (zip_or a b) else panic

-- `*tf as u64`
abbrev pub as_u64 : Bool → ℕ
as_u64 true = 1
as_u64 false = 0

abbrev pub u64_mod : ℕ
u64_mod = 2 ^ 64

-- The loop of `rustbv_to_int`, in the wrapping arithmetic of a release build.
rustbv_to_int_loop : ℕ → ℕ → RustBv → ℕ
rustbv_to_int_loop ans base [] = ans
rustbv_to_int_loop ans base (tf ∷ bv) =
    rustbv_to_int_loop ((ans + base * as_u64 tf) % u64_mod) (base * 2 % u64_mod) bv

unfoldable pub rustbv_to_int : RustBv → ℕ
unfolding rustbv_to_int_loop
rustbv_to_int bv = rustbv_to_int_loop 0 1 bv
