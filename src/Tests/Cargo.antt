-- ===== src/Tests/Cargo.antt =====
-- A call `cargo-rlc rlc --manifest-path Cargo.toml -- -MIR=V` for a package with a binary `app`, a
-- library and a test, and a call in place of rustc for its library.
use rul_checker.Prelude.{
  ◌≡◌, refl, true, List, [], ◌∷◌, ◌++◌, none, some, Option, if◌then◌else◌, ◌⊎◌,
}
use rul_checker.Prelude.Texts.{String, ◌==str◌}
use rul_checker.Cargo.{
  new_command, add_args, get_env, success, failed, Status, runs, done, exits, Target, World,
}
use rul_checker.Cargo.Args.{
  has_arg_flag, has_rlc_arg_flag, next, match_arg, get_arg_flag_value, until_dashes,
}
use rul_checker.Cargo.Targets.{library, bin}
use rul_checker.Cargo.Targets.Order.{of_key}
use rul_checker.Cargo.Phases.{
  check_command, run_cmd, run_rlc, rustc_args, phase_cargo_rlc, phase_rustc_rlc,
  is_current_compile_crate, is_target_crate,
}
use rul_checker.Cargo.Phases.Build.{build_all, phase_cargo_rlc-eq}
use rul_checker.Cargo.Phases.CheckArgs.{next-check_command}
use rul_checker.Cargo.Phases.Handoff.{run_rlc-check_command}
use rul_checker.Cargo.Phases.Dispatch.{
  rlc_command, rustc_command, phase_rustc_rlc-eq-run_rlc, phase_rustc_rlc-exits,
  phase_rustc_rlc-compiles,
}

abbrev targets : List Target
targets =
    record { name = "app"; kind = "bin" ∷ [] }
    ∷ record { name = "helpers"; kind = "lib" ∷ [] }
    ∷ record { name = "checks"; kind = "test" ∷ [] }
    ∷ []

abbrev user_args : List String
user_args = "--manifest-path" ∷ "Cargo.toml" ∷ "--" ∷ "-MIR=V" ∷ []

-- A stand-in for the JSON library on lists of at most one string.
abbrev to_text : List String → String
to_text [] = "[]"
to_text (a ∷ _) = a

abbrev world_of : List String → (String → Option String) → Status → World
world_of args env_var status = record {
  args = args;
  env_var = env_var;
  status = λ cmd. status;
  wait_timeout = λ cmd. some status;
  printed_path = λ cmd. some "/toolchain";
  current_exe = "/bin/cargo-rlc";
  find_rlc = "/bin/rlc";
  host = "x86_64";
  debug_assertions = true;
  to_string = to_text;
  from_str = λ s. some (s ∷ []);
  is_relative = λ s. true;
  to_lowercase = λ s. s;
  can_remove_root = true;
  make_package = done ("app", targets);
}

abbrev caller : World
caller = world_of ("cargo-rlc" ∷ "rlc" ∷ user_args) (λ v. none) success

abbrev rustc_call : List String
rustc_call =
    "cargo-rlc" ∷ "rustc" ∷ "src/lib.rs" ∷ "--crate-type" ∷ "lib" ∷ "--target" ∷ "x86_64" ∷ []

abbrev magic_env : String → Option String
magic_env v = if v ==str "RLC_ARGS" then some "-MIR=V" else none

abbrev callee : Status → World
callee status = world_of rustc_call magic_env status

phase_cargo_rlc-eq_example : phase_cargo_rlc caller ≡ (
  build_all caller library "app" (of_key 0 targets)
      ++ build_all caller bin "app" (of_key 1 targets),
  done tt,
)
phase_cargo_rlc-eq_example =
    phase_cargo_rlc-eq caller "app" targets refl (λ cmd. refl) (λ cmd. refl)

next-check_command_example :
    ((check_command caller (new_command "cargo")).args
      ≡ "--manifest-path" ∷ "Cargo.toml" ∷ "--target" ∷ "x86_64" ∷ [])
    × (next "--target" (check_command caller (new_command "cargo")).args ≡ some "x86_64")
unfolding match_arg next until_dashes has_arg_flag
next-check_command_example =
    next-check_command caller "cargo-rlc" user_args (new_command "cargo") refl refl refl tt

-- `cargo rlc --target`, without a value.
abbrev bare_caller : World
bare_caller = world_of ("cargo-rlc" ∷ "rlc" ∷ "--target" ∷ []) (λ v. none) success

bare_target :
    (check_command bare_caller (new_command "cargo")).args ≡ "--target" ∷ "--target" ∷ "x86_64" ∷ []
unfolding check_command get_arg_flag_value has_rlc_arg_flag has_arg_flag
bare_target = refl

phase_rustc_rlc-eq-run_rlc_example : phase_rustc_rlc (callee success) ≡ run_rlc (callee success)
unfolding is_current_compile_crate is_target_crate get_arg_flag_value until_dashes
phase_rustc_rlc-eq-run_rlc_example =
    phase_rustc_rlc-eq-run_rlc (callee success) refl refl
      (refl, (refl, (refl, (refl, (refl, (refl, (refl, tt)))))))

phase_rustc_rlc-exits_example :
    phase_rustc_rlc (callee (failed (some 101)))
    ≡ (runs (rlc_command (callee (failed (some 101))) ("-MIR=V" ∷ [])) ∷ [], exits 101)
unfolding is_current_compile_crate is_target_crate get_arg_flag_value until_dashes
phase_rustc_rlc-exits_example =
    phase_rustc_rlc-exits (callee (failed (some 101))) "-MIR=V" ("-MIR=V" ∷ []) 101 refl refl refl
      refl

phase_rustc_rlc-compiles_example :
    (phase_rustc_rlc (callee success) ≡ (runs (rustc_command (callee success)) ∷ [], done tt))
    ⊎ ((phase_rustc_rlc (callee success)
          ≡ (runs (rlc_command (callee success) ("-MIR=V" ∷ [])) ∷ [], done tt))
        ⊎ (phase_rustc_rlc (callee success) ≡ (
          runs (rlc_command (callee success) ("-MIR=V" ∷ []))
              ∷ runs (rustc_command (callee success))
              ∷ [],
          done tt,
        )))
phase_rustc_rlc-compiles_example =
    phase_rustc_rlc-compiles (callee success) "-MIR=V" ("-MIR=V" ∷ []) refl refl (λ cmd. refl)

-- `--crate-type lib` is no `--crate--type`.
lib_goes_to_rlc_alone :
    phase_rustc_rlc (callee success)
    ≡ (runs (rlc_command (callee success) ("-MIR=V" ∷ [])) ∷ [], done tt)
unfolding run_rlc run_cmd
lib_goes_to_rlc_alone = phase_rustc_rlc-eq-run_rlc_example

run_rlc-check_command_example :
    run_rlc (callee success)
    ≡ run_cmd
        (callee success)
        (add_args (add_args (new_command "/bin/rlc") (rustc_args (callee success))) ("-MIR=V" ∷ []))
unfolding check_command get_env has_arg_flag has_rlc_arg_flag
run_rlc-check_command_example =
    run_rlc-check_command caller (callee success) "cargo-rlc"
      ("--manifest-path" ∷ "Cargo.toml" ∷ []) ("-MIR=V" ∷ []) (new_command "cargo") refl
      (refl, (refl, tt)) refl refl
