-- ===== src/Cargo/Targets.antt =====
-- `TargetKind` of src/bin/cargo-rlc.rs, and the order in which targets are built.
pub mod Order
use rul_checker.Prelude.{ℕ, Bool, true, false, ◌||◌, List, [], ◌∷◌, ◌++◌, if◌then◌else◌, leb, ◌==◌}
use rul_checker.Prelude.Texts.{String, ◌==str◌}
use rul_checker.Cargo.{Target}

pub data TargetKind : Type 0 where
  library bin unspecified : TargetKind

-- `self as u8`
abbrev pub as_u8 : TargetKind → ℕ
as_u8 library = 0
as_u8 bin = 1
as_u8 unspecified = 2

abbrev pub fmt : TargetKind → String
fmt library = "lib"
fmt bin = "bin"
fmt unspecified = "unspecified"

abbrev pub is_lib_str : String → Bool
is_lib_str s = s ==str "lib" || s ==str "rlib" || s ==str "staticlib"

abbrev any : (String → Bool) → List String → Bool
any p [] = false
any p (s ∷ ss) = p s || any p ss

-- `TargetKind::from(target)`
unfoldable pub kind_of : Target → TargetKind
kind_of target =
    if any is_lib_str target.kind
    then library
    else if any (λ s. s ==str "bin") target.kind
    then bin
    else unspecified

-- `sort_by_key`, a stable sort: an element goes before the first that is greater.
pub insert_by_key : Target → List Target → List Target
unfolding kind_of
insert_by_key t [] = t ∷ []
insert_by_key t (u ∷ us) =
    let rest = insert_by_key t us in
    if leb (as_u8 (kind_of t)) (as_u8 (kind_of u)) then t ∷ u ∷ us else u ∷ rest

unfoldable pub sort_by_key : List Target → List Target
unfolding insert_by_key
sort_by_key [] = []
sort_by_key (t ∷ ts) = insert_by_key t (sort_by_key ts)
