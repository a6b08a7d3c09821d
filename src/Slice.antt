-- ===== src/Slice.antt =====
-- The per-variable state of the flow analysis: src/analysis/flow_analysis/ownership.rs and the
-- contexts of src/analysis/flow_analysis.rs. `T` is the compiler's type and `B` z3's bit vector.
pub mod Context
use rul_checker.Prelude.{
  ℕ, ◌≡◌, Bool, true, false, List, [], ◌∷◌, replicate, Option, none, if◌then◌else◌, set, ℕ_discrete,
  ite,
}
use rul_checker.Run.{Run, ret, panic, ◌>>=◌, index}
use rul_checker.Rustc.{TyKind, TyKind-discrete}
use rul_checker.Ownership.{OwnershipLayout}
use rul_checker.TypeVisitor.{TyWithIndex}

-- A `HashSet<TyWithIndex>`, without repetitions.
abbrev pub Taint : Type 0 → Type 0
Taint T = List (TyWithIndex T)

pub data IntroVar (B : Type 0) : Type 0 where
  declared : IntroVar B
  init : B → IntroVar B
  unsupported : IntroVar B

abbrev pub is_init : {B : Type 0} → IntroVar B → Bool
is_init (init b) = true
is_init _ = false

abbrev pub is_declared : {B : Type 0} → IntroVar B → Bool
is_declared declared = true
is_declared _ = false

abbrev pub is_unsupported : {B : Type 0} → IntroVar B → Bool
is_unsupported unsupported = true
is_unsupported _ = false

abbrev pub extract_var : {B : Type 0} → IntroVar B → Run B
extract_var (init b) = ret b
extract_var _ = panic

abbrev pub is_untainted : {T : Type 0} → Taint T → Bool
is_untainted [] = true
is_untainted (k ∷ ks) = false

unfoldable pub TyWithIndex-discrete : {T : Type 0} → Discrete T → Discrete (TyWithIndex T)
unfolding TyKind-discrete ℕ_discrete
TyWithIndex-discrete d = hlevel (TyKind-discrete d, ℕ_discrete)

module _ {T : Type 0} (d : Discrete T) where
  pub taint_contains : Taint T → TyWithIndex T → Bool
  unfolding TyWithIndex-discrete
  taint_contains [] k = false
  taint_contains (e ∷ es) k =
      let rest = taint_contains es k in ite (TyWithIndex-discrete d k e) true rest

  pub taint_insert : Taint T → TyWithIndex T → Taint T
  unfolding taint_contains
  taint_insert s k = if taint_contains s k then s else k ∷ s

  -- `for elem in set.clone() { s.insert(elem); }`
  pub taint_insert_all : Taint T → Taint T → Taint T
  unfolding taint_insert
  taint_insert_all s [] = s
  taint_insert_all s (k ∷ ks) = taint_insert_all (taint_insert s k) ks

-- The five vectors of `IcxSliceFroBlock`, indexed by the local.
pub record IcxSlice (T B : Type 0) : Type 0 where
  pub taint : List (Taint T)
  pub var : List (IntroVar B)
  pub len : List ℕ
  pub ty : List (TyWithIndex T)
  pub layout : List OwnershipLayout

module _ {T B : Type 0} where
  unfoldable pub new_for_block_0 : ℕ → IcxSlice T B
  new_for_block_0 n = record {
    taint = replicate n [];
    var = replicate n declared;
    len = replicate n 0;
    ty = replicate n none;
    layout = replicate n [];
  }

  -- `IcxSliceFroBlock::default()`
  abbrev pub default_slice : IcxSlice T B
  default_slice = record { taint = []; var = []; len = []; ty = []; layout = [] }
