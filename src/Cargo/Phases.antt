-- ===== src/Cargo/Phases.antt =====
-- The phases of src/bin/cargo-rlc.rs and its `main`.
pub mod Build
pub mod CheckArgs
pub mod Handoff
pub mod Dispatch
pub mod Start
use rul_checker.Prelude.{
  ℕ, zero, suc, Bool, true, false, not, ◌&&◌, ◌||◌, List, [], ◌∷◌, ◌++◌, Option, none, some,
  if◌then◌else◌, drop, get_elem?, leb, ◌-◌, ◌==◌,
}
use Prim.Native.Char.{Char, code}
use Prim.Native.String.{◌∷◌ as ◌∷str◌}
use rul_checker.Prelude.Texts.{String, len, slice, ◌==str◌}
use rul_checker.Cargo.{
  Command, new_command, add_args, set_env, Status, success, not_run, failed, Event, shows_help,
  shows_version, removes_root, runs, Result, done, exits, panics, Proc, ◌>>=◌, pure, error_and_exit,
  Target, World,
}
use rul_checker.Cargo.Args.{
  has_arg_flag, has_rlc_arg_flag, get_arg_flag_value, any_arg_flag, any_equal, until_dashes,
  forward,
}
use rul_checker.Cargo.Targets.{
  TargetKind, library, bin, unspecified, is_lib_str, kind_of, sort_by_key,
}

abbrev pub Action : Type 0
Action = Proc (Unit {0})

abbrev pub nothing : Action
nothing = pure tt

abbrev pub emit : Event → Action
emit e = (e ∷ [], done tt)

-- `status.code().unwrap()`
abbrev pub exit_with : Option ℕ → Action
exit_with none = ([], panics)
exit_with (some code) = ([], exits code)

abbrev pub check_status : Status → Action
check_status success = nothing
check_status not_run = ([], panics)
check_status (failed code) = exit_with code

abbrev pub is_some : {A : Type 0} → Option A → Bool
is_some none = false
is_some (some a) = true

module _ (world : World) where
  open world use {args, env_var, status, find_rlc, host}

  unfoldable pub run_cmd : Command → Action
  run_cmd cmd = emit (runs cmd) >>= λ u. check_status (status cmd)

  -- `clean_package`
  abbrev clean_command : String → Command
  clean_command pkg = add_args (new_command "cargo") ("clean" ∷ "-p" ∷ pkg ∷ "--target" ∷ host ∷ [])

  abbrev or_error : Status → Action
  or_error success = nothing
  or_error not_run = ([], panics)
  or_error (failed code) = error_and_exit

  unfoldable pub clean_package : String → Action
  clean_package pkg = emit (runs (clean_command pkg)) >>= λ u. or_error (status (clean_command pkg))

  -- `is_identified_target`: the command with its arguments, or nothing.
  pub identify_kind : TargetKind → String → Target → Command → Proc (Option Command)
  unfolding clean_package
  identify_kind library pkg target cmd =
      clean_package pkg >>= λ u. pure (some (set_env (add_args cmd ("--lib" ∷ [])) "RLC_LIB" ""))
  identify_kind bin pkg target cmd = clean_package pkg >>= λ u.
      pure (some (set_env (add_args cmd ("--bin" ∷ target.name ∷ [])) "RLC_BIN" target.name))
  identify_kind unspecified pkg target cmd = pure none

  unfoldable pub is_identified_target : String → Target → Command → Proc (Option Command)
  unfolding identify_kind
  is_identified_target pkg target cmd = identify_kind (kind_of target) pkg target cmd

  abbrev env_if : Bool → String → String → Command → Command
  env_if b key value cmd = if b then set_env cmd key value else cmd

  unfoldable pub rlc_add_env : Command → Command
  rlc_add_env cmd = env_if (has_rlc_arg_flag args "-ICX-SLICE=V") "ICX_SLICE" "" (
      env_if (has_rlc_arg_flag args "-Z3-GOAL=V") "Z3_GOAL" "" (
        env_if (has_rlc_arg_flag args "-ADT=V") "ADT_DISPLAY" "" (
          env_if (has_rlc_arg_flag args "-MIR=VV") "MIR_DISPLAY" "VERY VERBOSE"
            (env_if (has_rlc_arg_flag args "-MIR=V") "MIR_DISPLAY" "VERBOSE" cmd))))

  -- `args.any(|a| a == name)` on an iterator: whether it was found, and what is left.
  pub any_from : String → List String → Bool × List String
  any_from name [] = (false, [])
  any_from name (a ∷ rest) =
      let later = any_from name rest in if a ==str name then (true, rest) else later

  abbrev emit_if : Bool → Event → Action
  emit_if b e = if b then emit e else nothing

  -- `assert_eq!` on the two sysroots, each printed by a command.
  abbrev same_sysroot : Option String → Option String → Action
  same_sysroot (some a) (some b) = if a ==str b then nothing else ([], panics)
  same_sysroot _ _ = ([], panics)

  abbrev sysroot_command : String → Command
  sysroot_command program = add_args (new_command program) ("--print" ∷ "sysroot" ∷ [])

  pub test_sysroot_consistency : Action
  test_sysroot_consistency =
      same_sysroot (world.printed_path (sysroot_command "rustc"))
        (world.printed_path (sysroot_command find_rlc))

  unfoldable pub phase_preprocess : Action
  unfolding any_from test_sysroot_consistency run_cmd
  phase_preprocess =
      let help = any_from "--help" args in
      let version = any_from "--version" help.1 in
      emit_if help.0 shows_help >>= λ u1. emit_if version.0 shows_version >>= λ u2.
      test_sysroot_consistency >>= λ u3.
      run_cmd (add_args (new_command "cargo") ("clean" ∷ [])) >>= λ u4.
      emit removes_root >>= λ u5. if world.can_remove_root then nothing else error_and_exit

  abbrev verbose : Bool
  verbose = has_arg_flag args "-v" || has_arg_flag args "-vv"

  -- The `cargo check` of a target, from the command that identifies it on.
  unfoldable pub check_command : Command → Command
  unfolding forward rlc_add_env
  check_command cmd0 =
      let split = forward (drop 2 args) in
      let quiet = if not world.debug_assertions && not verbose then "-q" ∷ [] else [] in
      let given = is_some (get_arg_flag_value args "--target") in
      let target = if given then [] else "--target" ∷ host ∷ [] in
      let cmd1 = add_args (add_args (add_args cmd0 quiet) split.0) target in
      let cmd2 = set_env cmd1 "RLC_ARGS" (world.to_string split.1) in
      let cmd3 = set_env cmd2 "RUSTC_WRAPPER" world.current_exe in
      let cmd4 = env_if (has_arg_flag args "-v") "RLC_VERBOSE" "VERBOSE" cmd3 in
      let cmd5 = env_if (has_arg_flag args "-vv") "RLC_VERBOSE" "VERY VERBOSE" cmd4 in
      rlc_add_env cmd5

  -- `spawn` and `wait_timeout`: nothing is a timeout, after which the child is killed.
  abbrev waited : Option Status → Action
  waited none = error_and_exit
  waited (some success) = nothing
  waited (some not_run) = ([], panics)
  waited (some (failed code)) = error_and_exit

  pub check_identified : Option Command → Action
  unfolding check_command
  check_identified none = nothing
  check_identified (some cmd) =
      emit (runs (check_command cmd)) >>= λ u. waited (world.wait_timeout (check_command cmd))

  -- The loop over the targets.
  unfoldable pub check_targets : String → List Target → Action
  unfolding check_identified is_identified_target
  check_targets pkg [] = nothing
  check_targets pkg (t ∷ ts) =
      is_identified_target pkg t (add_args (new_command "cargo") ("check" ∷ [])) >>= λ found.
      check_identified found >>= λ u. check_targets pkg ts

  unfoldable pub phase_cargo_rlc : Action
  unfolding check_targets sort_by_key
  phase_cargo_rlc = ([], world.make_package) >>= λ pkg. check_targets pkg.0 (sort_by_key pkg.1)

-- `s.ends_with(".rs")`
abbrev pub ends_with_rs : String → Bool
ends_with_rs s = leb 3 (len s) && (slice s (len s - 3) (len s) ==str ".rs")

-- `s.split(',')`
abbrev push : Char → List String → List String
push c [] = []
push c (s ∷ ss) = (c ∷str s) ∷ ss

pub split_commas : String → List String
split_commas String.[] = "" ∷ []
split_commas (String.◌∷◌ c s) =
    let rest = split_commas s in if code c == b',' then "" ∷ rest else push c rest

abbrev find : (String → Bool) → List String → Option String
find p [] = none
find p (s ∷ ss) = if p s then some s else find p ss

module _ (world : World) where
  open world use {args, env_var, find_rlc}

  -- `is_direct`, from `is_current_compile_crate` and `is_target_crate`
  abbrev relative_path : Option String → Bool
  relative_path none = false
  relative_path (some path) = world.is_relative path

  unfoldable pub is_target_crate : Bool
  is_target_crate = is_some (get_arg_flag_value args "--target")

  unfoldable pub is_current_compile_crate : Bool
  is_current_compile_crate = relative_path (find ends_with_rs (until_dashes args))

  abbrev any_lower : String → List String → Bool
  any_lower name [] = false
  any_lower name (s ∷ ss) = world.to_lowercase s ==str world.to_lowercase name || any_lower name ss

  abbrev listed : Option String → Option String → Bool
  listed (some name) (some additional) = any_lower name (split_commas additional)
  listed _ _ = false

  unfoldable pub is_additional_compile_crate : Bool
  unfolding split_commas
  is_additional_compile_crate = listed (env_var "CARGO_PKG_NAME") (env_var "RLC_ADDITIONAL")

  unfoldable pub is_crate_type_lib : Bool
  is_crate_type_lib = any_arg_flag args "--crate--type" is_lib_str

  -- `serde_json::from_str(&env::var("RLC_ARGS").expect(…)).expect(…)`
  abbrev parsed : Option (List String) → Proc (List String)
  parsed none = ([], panics)
  parsed (some more) = pure more

  abbrev stored_args : Option String → Proc (List String)
  stored_args none = ([], panics)
  stored_args (some magic) = parsed (world.from_str magic)

  abbrev pub rustc_args : List String
  rustc_args = drop 2 args

  unfoldable pub run_rlc : Action
  run_rlc = stored_args (env_var "RLC_ARGS") >>= λ more.
      run_cmd world (add_args (add_args (new_command find_rlc) rustc_args) more)

  unfoldable pub run_rustc : Action
  run_rustc = run_cmd world (add_args (new_command "rustc") rustc_args)

  unfoldable pub phase_rustc_rlc : Action
  unfolding run_rlc run_rustc
  phase_rustc_rlc =
      let is_direct = is_current_compile_crate && is_target_crate in
      let is_additional = is_additional_compile_crate in
      (if is_direct || is_additional then run_rlc else nothing) >>= λ u.
      if not is_direct || is_crate_type_lib then run_rustc else nothing

  abbrev dispatch : Option String → Action
  dispatch none = error_and_exit
  dispatch (some a) =
      if a ==str "rlc"
      then (phase_preprocess world >>= λ u. phase_cargo_rlc world)
      else if a ==str "rustc"
      then phase_rustc_rlc
      else error_and_exit

  unfoldable pub main : Action
  main = dispatch (get_elem? args 1)
