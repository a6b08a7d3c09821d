-- ===== src/Driver/Options.antt =====
-- What is left of the arguments of rustc, and the configuration that the options make.
use mathlib.Core.List.{append-nil, append_assoc}
use rul_checker.Prelude.{◌≡◌, refl, ◌∙◌, false, List, [], ◌∷◌, ◌++◌, Option, none, some}
use rul_checker.Prelude.Texts.{String}
use rul_checker.Run.{ret}
use rul_checker.Driver.{
  RlcGrain, MirDisplay, AdtOwnerDisplay, Z3GoalDisplay, IcxSliceDisplay, RlcConfig, default_config,
  RlcArgs, default_args, Flag, set_grain, set_mir_display, set_adt_display, set_z3_goal_display,
  set_icx_slice_display, flag_of, set_config, take_arg, parse_each, config_parse, rlc_default_args,
  BuildEnv, compile_time_sysroot, any_equal, compiler_args,
}

-- The arguments that are no option, in order.
abbrev pub keep : Option Flag → String → List String → List String
keep none arg rest = arg ∷ rest
keep (some f) arg rest = rest

unfoldable pub others : List String → List String
others [] = []
others (arg ∷ rest) = keep (flag_of arg) arg (others rest)

others-cons :
    (arg : String) (rest : List String)
    → flag_of arg ≡ none
    → others (arg ∷ rest) ≡ arg ∷ others rest
unfolding others
others-cons arg rest h = cases (flag_of arg) h
  where
    cases : (o : Option Flag) → o ≡ none → keep o arg (others rest) ≡ arg ∷ others rest
    cases none e = refl
    cases (some f) e = cc

-- The options, in order.
abbrev pub add_flag : Option Flag → List Flag → List Flag
add_flag none fs = fs
add_flag (some f) fs = f ∷ fs

unfoldable pub flags : List String → List Flag
flags [] = []
flags (arg ∷ rest) = add_flag (flag_of arg) (flags rest)

-- The last value that a kind of option is given, read from the end.
abbrev pub or_later : {A : Type 0} → Option A → Option A → Option A
or_later a none = a
or_later a (some b) = some b

abbrev pub or_default : {A : Type 0} → Option A → A → A
or_default none d = d
or_default (some a) d = a

abbrev pub last_of : {A : Type 0} → (Flag → Option A) → List Flag → Option A
last_of pick [] = none
last_of pick (f ∷ fs) = or_later (pick f) (last_of pick fs)

abbrev pub grain_in : Flag → Option RlcGrain
grain_in (set_grain g) = some g
grain_in _ = none

abbrev pub mir_in : Flag → Option MirDisplay
mir_in (set_mir_display d) = some d
mir_in _ = none

abbrev pub adt_in : Flag → Option AdtOwnerDisplay
adt_in (set_adt_display d) = some d
adt_in _ = none

abbrev pub z3_in : Flag → Option Z3GoalDisplay
z3_in (set_z3_goal_display d) = some d
z3_in _ = none

abbrev pub icx_in : Flag → Option IcxSliceDisplay
icx_in (set_icx_slice_display d) = some d
icx_in _ = none

-- Each field has the last value that it is given, or the one it had.
abbrev pub configured : RlcConfig → List Flag → RlcConfig
configured c fs = record {
  grain = or_default (last_of grain_in fs) c.grain;
  verbose = c.verbose;
  mir_display = or_default (last_of mir_in fs) c.mir_display;
  adt_display = or_default (last_of adt_in fs) c.adt_display;
  z3_goal_display = or_default (last_of z3_in fs) c.z3_goal_display;
  icx_slice_display = or_default (last_of icx_in fs) c.icx_slice_display;
}

abbrev set_all : RlcConfig → List Flag → RlcConfig
set_all c [] = c
set_all c (f ∷ fs) = set_all (set_config c f) fs

or_default-or_later :
    {A : Type 0} (a o : Option A) (d : A)
    → or_default (or_later a o) d ≡ or_default o (or_default a d)
or_default-or_later a none d = refl
or_default-or_later a (some b) d = refl

-- Reading the options from the end finds what setting them one by one leaves.
after_one : RlcConfig → Flag → List Flag → RlcConfig
after_one c f fs = record {
  grain = or_default (last_of grain_in fs) (or_default (grain_in f) c.grain);
  verbose = c.verbose;
  mir_display = or_default (last_of mir_in fs) (or_default (mir_in f) c.mir_display);
  adt_display = or_default (last_of adt_in fs) (or_default (adt_in f) c.adt_display);
  z3_goal_display = or_default (last_of z3_in fs) (or_default (z3_in f) c.z3_goal_display);
  icx_slice_display = or_default (last_of icx_in fs) (or_default (icx_in f) c.icx_slice_display);
}

after_one-eq :
    (c : RlcConfig) (f : Flag) (fs : List Flag) → after_one c f fs ≡ configured (set_config c f) fs
unfolding after_one
after_one-eq c (set_grain g) fs = refl
after_one-eq c (set_mir_display d) fs = refl
after_one-eq c (set_adt_display d) fs = refl
after_one-eq c (set_z3_goal_display d) fs = refl
after_one-eq c (set_icx_slice_display d) fs = refl

configured-cons :
    (c : RlcConfig) (f : Flag) (fs : List Flag)
    → configured c (f ∷ fs) ≡ configured (set_config c f) fs
unfolding after_one
configured-cons c f fs =
    rw
      (
        or_default-or_later (grain_in f) (last_of grain_in fs) c.grain,
        or_default-or_later (mir_in f) (last_of mir_in fs) c.mir_display,
        or_default-or_later (adt_in f) (last_of adt_in fs) c.adt_display,
        or_default-or_later (z3_in f) (last_of z3_in fs) c.z3_goal_display,
        or_default-or_later (icx_in f) (last_of icx_in fs) c.icx_slice_display,
      )
      (after_one-eq c f fs)

parse_each-eq :
    (env_args : List String) (s : RlcArgs)
    → parse_each env_args s ≡ record {
      rlc_config = configured s.rlc_config (flags env_args);
      args = s.args ++ others env_args;
    }
unfolding parse_each flags others
parse_each-eq [] s = rw append-nil
parse_each-eq (arg ∷ rest) s = cases (flag_of arg) (parse_each-eq rest _)
  where
    cases :
        (o : Option Flag)
        → parse_each rest (take_arg o arg s) ≡ record {
          rlc_config = configured (take_arg o arg s).rlc_config (flags rest);
          args = (take_arg o arg s).args ++ others rest;
        }
        → parse_each rest (take_arg o arg s) ≡ record {
          rlc_config = configured s.rlc_config (add_flag o (flags rest));
          args = s.args ++ keep o arg (others rest);
        }
    cases none h = h ∙ rw append_assoc
    cases (some f) h = h ∙ rw (configured-cons s.rlc_config f (flags rest))

pub config_parse-flags :
    (env_args : List String)
    → config_parse env_args
      ≡ record { rlc_config = configured default_config (flags env_args); args = others env_args }
unfolding config_parse
config_parse-flags env_args = parse_each-eq env_args default_args

-- Called as `exe` with more arguments, where `exe` is no option and `--sysroot` is not among the
-- arguments, RLC built with the system root `sysroot` starts the compiler with `exe`, its own
-- default arguments, the arguments that are no options, in order, and the system root.
pub compiler_args-eq :
    (env : BuildEnv) (exe sysroot : String) (more : List String)
    → compile_time_sysroot env ≡ ret (some sysroot)
    → flag_of exe ≡ none
    → any_equal (exe ∷ others more) "--sysroot" ≡ false
    → compiler_args env (config_parse (exe ∷ more))
      ≡ ret (exe ∷ (rlc_default_args ++ (others more ++ "--sysroot" ∷ sysroot ∷ [])))
unfolding compiler_args
compiler_args-eq env exe sysroot more built plain missing =
    rw (config_parse-flags (exe ∷ more), built, others-cons exe more plain, missing)
