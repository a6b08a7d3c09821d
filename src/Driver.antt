-- ===== src/Driver.antt =====
-- src/bin/rlc.rs with what it takes from src/lib.rs: the options of RLC among the arguments of
-- rustc, and the arguments that the compiler is started with. The compiler itself, and the variables
-- of the environment that RLC was built in, are parameters.
pub mod Options
pub mod Named
use rul_checker.Prelude.{
  Bool, true, false, ◌||◌, ◌&&◌, List, [], ◌∷◌, ◌++◌, Option, none, some, if◌then◌else◌,
}
use rul_checker.Prelude.Texts.{String, ◌==str◌}
use Prim.Native.String.{◌++◌ as ◌<>◌}
use rul_checker.Run.{Run, ret, panic, ◌>>=◌}

-- src/components/grain.rs and src/components/log.rs
pub data RlcGrain : Type 0 where
  low medium high ultra : RlcGrain

pub data Verbosity : Type 0 where
  info debug trace : Verbosity

-- The enumerations `Verbose` and `Disabled` of src/components/display.rs,
-- src/analysis/type_analysis.rs and src/analysis/flow_analysis.rs.
pub data MirDisplay : Type 0 where
  mir_verbose mir_very_verbose mir_disabled : MirDisplay

pub data AdtOwnerDisplay : Type 0 where
  adt_verbose adt_disabled : AdtOwnerDisplay

pub data Z3GoalDisplay : Type 0 where
  z3_verbose z3_disabled : Z3GoalDisplay

pub data IcxSliceDisplay : Type 0 where
  icx_verbose icx_disabled : IcxSliceDisplay

pub record RlcConfig : Type 0 where
  pub grain : RlcGrain
  pub verbose : Verbosity
  pub mir_display : MirDisplay
  pub adt_display : AdtOwnerDisplay
  pub z3_goal_display : Z3GoalDisplay
  pub icx_slice_display : IcxSliceDisplay

abbrev pub default_config : RlcConfig
default_config = record {
  grain = low;
  verbose = info;
  mir_display = mir_disabled;
  adt_display = adt_disabled;
  z3_goal_display = z3_disabled;
  icx_slice_display = icx_disabled;
}

pub record RlcArgs : Type 0 where
  pub rlc_config : RlcConfig
  pub args : List String

abbrev pub default_args : RlcArgs
default_args = record { rlc_config = default_config; args = [] }

-- The options that `config_parse` takes out.
pub data Flag : Type 0 where
  set_grain : RlcGrain → Flag
  set_mir_display : MirDisplay → Flag
  set_adt_display : AdtOwnerDisplay → Flag
  set_z3_goal_display : Z3GoalDisplay → Flag
  set_icx_slice_display : IcxSliceDisplay → Flag

unfoldable pub flag_of : String → Option Flag
flag_of arg =
    if arg ==str "-GRAIN=LOW"
    then some (set_grain low)
    else if arg ==str "-GRAIN=MEDIUM"
    then some (set_grain medium)
    else if arg ==str "-GRAIN=HIGH"
    then some (set_grain high)
    else if arg ==str "-GRAIN=ULTRA"
    then some (set_grain ultra)
    else if arg ==str "-MIR=V"
    then some (set_mir_display mir_verbose)
    else if arg ==str "-MIR=VV"
    then some (set_mir_display mir_very_verbose)
    else if arg ==str "-ADT=V"
    then some (set_adt_display adt_verbose)
    else if arg ==str "-Z3-GOAL=V"
    then some (set_z3_goal_display z3_verbose)
    else if arg ==str "-ICX-SLICE=V"
    then some (set_icx_slice_display icx_verbose)
    else none

-- The setters of `RlcArgs` and `RlcConfig`.
abbrev pub set_config : RlcConfig → Flag → RlcConfig
set_config c (set_grain g) = record c { grain = g }
set_config c (set_mir_display d) = record c { mir_display = d }
set_config c (set_adt_display d) = record c { adt_display = d }
set_config c (set_z3_goal_display d) = record c { z3_goal_display = d }
set_config c (set_icx_slice_display d) = record c { icx_slice_display = d }

abbrev pub push_args : RlcArgs → String → RlcArgs
push_args s arg = record s { args = s.args ++ arg ∷ [] }

abbrev pub take_arg : Option Flag → String → RlcArgs → RlcArgs
take_arg none arg s = push_args s arg
take_arg (some f) arg s = record s { rlc_config = set_config s.rlc_config f }

-- The loop of `config_parse`.
pub parse_each : List String → RlcArgs → RlcArgs
parse_each [] s = s
parse_each (arg ∷ rest) s = parse_each rest (take_arg (flag_of arg) arg s)

unfoldable pub config_parse : List String → RlcArgs
unfolding parse_each flag_of
config_parse env_args = parse_each env_args default_args

-- `RLC_DEFAULT_ARGS`
abbrev pub rlc_default_args : List String
rlc_default_args = "-Zalways-encode-mir" ∷ "-Zmir-opt-level=0" ∷ "--cfg=rlc" ∷ []

-- `self.args.splice(1..1, …)`, which panics if there is no argument.
abbrev pub splice_args : List String → Run (List String)
splice_args [] = panic
splice_args (exe ∷ rest) = ret (exe ∷ (rlc_default_args ++ rest))

-- What `option_env!` found when RLC was built.
pub record BuildEnv : Type 0 where
  pub rustc_stage : Option String
  pub rustup_home : Option String
  pub multirust_home : Option String
  pub rustup_toolchain : Option String
  pub multirust_toolchain : Option String
  pub rust_sysroot : Option String

abbrev pub or : Option String → Option String → Option String
or none b = b
or (some a) b = some a

abbrev sysroot_from : Option String → Option String → Option String → Run (Option String)
sysroot_from (some home) (some toolchain) sysroot =
    ret (some (home <> ("/toolchains/" <> toolchain)))
sysroot_from _ _ (some sysroot) = ret (some sysroot)
sysroot_from _ _ none = panic

abbrev from_stage : Option String → Run (Option String) → Run (Option String)
from_stage none found = found
from_stage (some stage) found = ret none

unfoldable pub compile_time_sysroot : BuildEnv → Run (Option String)
compile_time_sysroot env = from_stage env.rustc_stage (
    sysroot_from (or env.rustup_home env.multirust_home)
      (or env.rustup_toolchain env.multirust_toolchain) env.rust_sysroot)

unfoldable pub any_equal : List String → String → Bool
any_equal [] name = false
any_equal (a ∷ args) name = a ==str name || any_equal args name

abbrev pub add_sysroot : Option String → List String → List String
add_sysroot none args = args
add_sysroot (some sysroot) args =
    if any_equal args "--sysroot" then args else args ++ "--sysroot" ∷ sysroot ∷ []

-- The arguments that `run_complier` starts the compiler with.
unfoldable pub compiler_args : BuildEnv → RlcArgs → Run (List String)
unfolding any_equal compile_time_sysroot
compiler_args env s =
    compile_time_sysroot env >>= λ sysroot. splice_args (add_sysroot sysroot s.args)
