-- ===== src/Tests/Driver.antt =====
-- A call of `rlc` with two options and a file.
use rul_checker.Prelude.{◌≡◌, refl, List, [], ◌∷◌, ◌++◌, none, some}
use rul_checker.Prelude.Texts.{String}
use rul_checker.Run.{ret}
use rul_checker.Driver.{
  BuildEnv, high, info, mir_very_verbose, adt_disabled, z3_disabled, icx_disabled, config_parse,
  compiler_args, compile_time_sysroot, flag_of, any_equal, rlc_default_args,
}
use rul_checker.Driver.Options.{others, compiler_args-eq}
use rul_checker.Driver.Named.{config_parse-eq}

abbrev more_args : List String
more_args = "-MIR=V" ∷ "src/main.rs" ∷ "-MIR=VV" ∷ "-GRAIN=HIGH" ∷ "--edition=2021" ∷ []

abbrev built : BuildEnv
built = record {
  rustc_stage = none;
  rustup_home = some "/home";
  multirust_home = none;
  rustup_toolchain = none;
  multirust_toolchain = some "nightly";
  rust_sysroot = none;
}

config_parse-eq_example : config_parse ("rlc" ∷ more_args) ≡ record {
  rlc_config = record {
    grain = high;
    verbose = info;
    mir_display = mir_very_verbose;
    adt_display = adt_disabled;
    z3_goal_display = z3_disabled;
    icx_slice_display = icx_disabled;
  };
  args = "rlc" ∷ "src/main.rs" ∷ "--edition=2021" ∷ [];
}
config_parse-eq_example = config_parse-eq ("rlc" ∷ more_args)

compiler_args-eq_example :
    compiler_args built (config_parse ("rlc" ∷ more_args))
    ≡ ret (
        "rlc"
        ∷ (rlc_default_args ++ (others more_args ++ "--sysroot" ∷ "/home/toolchains/nightly" ∷ [])))
unfolding compile_time_sysroot flag_of others any_equal
compiler_args-eq_example =
    compiler_args-eq built "rlc" "/home/toolchains/nightly" more_args refl refl refl

compiler_args_here :
    compiler_args built (config_parse ("rlc" ∷ more_args))
    ≡ ret (
        "rlc" ∷ "-Zalways-encode-mir" ∷ "-Zmir-opt-level=0" ∷ "--cfg=rlc" ∷ "src/main.rs"
        ∷ "--edition=2021" ∷ "--sysroot" ∷ "/home/toolchains/nightly" ∷ [])
unfolding compiler_args config_parse
compiler_args_here = refl
