-- ===== src/Cargo/Phases/Dispatch.antt =====
-- Which compiler a call in place of rustc runs, and how its failure ends the call.
use mathlib.Core.List.{append-nil}
use rul_checker.Prelude.{
  ℕ, ◌≡◌, refl, Bool, true, false, ◌&&◌, ◌||◌, List, [], ◌∷◌, some, All, Bool-cases, ◌⊎◌, inl, inr,
  if◌then◌else◌,
}
use rul_checker.Prelude.Texts.{String, starts_with, ◌==str◌}
use rul_checker.Cargo.{
  Command, new_command, add_args, success, failed, Event, runs, done, exits, panics, ◌>>=◌, World,
}
use rul_checker.Cargo.Args.{
  until_dashes, Suffix, suffix_of, other_arg, alone, garbled, holds, any_value, any_arg_flag,
}
use rul_checker.Cargo.Targets.{is_lib_str}
use rul_checker.Cargo.Phases.{
  Action, nothing, run_cmd, run_rlc, rustc_args, is_current_compile_crate, is_target_crate,
  is_additional_compile_crate, is_crate_type_lib, phase_rustc_rlc,
}

>>=-nothing : (p : Action) → (p >>= λ u. nothing) ≡ p
>>=-nothing (es, done tt) = rw append-nil
>>=-nothing (es, exits code) = refl
>>=-nothing (es, panics) = refl

suffix_of-other_arg : (name a : String) → starts_with a name ≡ false → suffix_of name a ≡ other_arg
unfolding suffix_of
suffix_of-other_arg name a h = rw h

any_value-none :
    (name : String) (check : String → Bool) (args : List String)
    → All (λ a. starts_with a name ≡ false) args
    → any_value name check false args ≡ false
unfolding any_value
any_value-none name check [] h = refl
any_value-none name check (a ∷ args) h =
    cases (suffix_of name a) (suffix_of-other_arg name a h.0) (any_value-none name check args h.1)
  where
    cases :
        (m : Suffix)
        → m ≡ other_arg
        → any_value name check false args ≡ false
        → elim m [
          | other_arg ↦ any_value name check false args
          | alone ↦ any_value name check true args
          | garbled ↦ false
          | holds value ↦ check value || any_value name check false args
        ]
          ≡ false
    cases other_arg e k = k
    cases alone e k = cc
    cases garbled e k = cc
    cases (holds value) e k = cc

All-until_dashes :
    (P : String → Type 0) (args : List String) → All P args → All P (until_dashes args)
unfolding until_dashes
All-until_dashes P [] h = tt
All-until_dashes P (a ∷ args) h = elim (Bool-cases (a ==str "--")) [
  | inl e ↦ rw e tt
  | inr e ↦ rw e (h.0, All-until_dashes P args h.1)
]

module _ (world : World) where
  open world use {args, status, find_rlc}

  is_crate_type_lib-none :
      All (λ a. starts_with a "--crate--type" ≡ false) args → is_crate_type_lib world ≡ false
  unfolding is_crate_type_lib any_arg_flag
  is_crate_type_lib-none h =
      any_value-none "--crate--type" is_lib_str (until_dashes args) (All-until_dashes _ args h)

  -- A local crate for the target, with no argument that starts with `--crate--type`, is given to
  -- `rlc` alone: rustc is not run, also if the arguments have `--crate-type lib`.
  pub phase_rustc_rlc-eq-run_rlc :
      is_current_compile_crate world ≡ true
      → is_target_crate world ≡ true
      → All (λ a. starts_with a "--crate--type" ≡ false) args
      → phase_rustc_rlc world ≡ run_rlc world
  unfolding phase_rustc_rlc
  phase_rustc_rlc-eq-run_rlc here target none_given =
      rw (here, target, is_crate_type_lib-none none_given) (>>=-nothing (run_rlc world))

  -- The processes that one call in place of rustc starts, with the arguments `more` for `rlc`.
  abbrev pub rlc_command : List String → Command
  rlc_command more = add_args (add_args (new_command find_rlc) (rustc_args world)) more

  abbrev pub rustc_command : Command
  rustc_command = add_args (new_command "rustc") (rustc_args world)

  abbrev if_then : Bool → Event → List Event
  if_then b e = if b then e ∷ [] else []

  abbrev is_direct : Bool
  is_direct = is_current_compile_crate world && is_target_crate world

  run_rlc-eq :
      (magic : String) (more : List String)
      → world.env_var "RLC_ARGS" ≡ some magic
      → world.from_str magic ≡ some more
      → run_rlc world ≡ run_cmd world (rlc_command more)
  unfolding run_rlc
  run_rlc-eq magic more e d = rw (e, d)

  -- Where `RLC_ARGS` holds the arguments `more` and the call of `rlc` fails with an exit code, a
  -- crate that is local and for the target, or is listed as additional, ends with that code: no
  -- other process is started.
  pub phase_rustc_rlc-exits :
      (magic : String) (more : List String) (code : ℕ)
      → world.env_var "RLC_ARGS" ≡ some magic
      → world.from_str magic ≡ some more
      → (is_direct || is_additional_compile_crate world) ≡ true
      → status (rlc_command more) ≡ failed (some code)
      → phase_rustc_rlc world ≡ (runs (rlc_command more) ∷ [], exits code)
  unfolding phase_rustc_rlc run_cmd
  phase_rustc_rlc-exits magic more code e d chosen fails =
      rw (chosen, run_rlc-eq magic more e d, fails)

  -- Where `RLC_ARGS` holds the arguments `more` and every process succeeds, the call goes on after
  -- compiling the crate at least once: with rustc, with `rlc`, or with `rlc` and then rustc.
  pub phase_rustc_rlc-compiles :
      (magic : String) (more : List String)
      → world.env_var "RLC_ARGS" ≡ some magic
      → world.from_str magic ≡ some more
      → ((cmd : Command) → status cmd ≡ success)
      → (phase_rustc_rlc world ≡ (runs rustc_command ∷ [], done tt))
        ⊎ ((phase_rustc_rlc world ≡ (runs (rlc_command more) ∷ [], done tt))
            ⊎ (phase_rustc_rlc world
                ≡ (runs (rlc_command more) ∷ runs rustc_command ∷ [], done tt)))
  unfolding phase_rustc_rlc run_cmd
  phase_rustc_rlc-compiles magic more e d well = elim (Bool-cases is_direct) [
    | inl direct ↦ elim (Bool-cases (is_crate_type_lib world)) [
      | inl lib ↦ inr (
          inr (
            rw (
              direct,
              lib,
              run_rlc-eq magic more e d,
              well (rlc_command more),
              well rustc_command,
            )))
      | inr lib ↦ inr (inl (rw (direct, lib, run_rlc-eq magic more e d, well (rlc_command more))))
    ]
    | inr direct ↦ elim (Bool-cases (is_additional_compile_crate world)) [
      | inl listed ↦ inr (
          inr (
            rw (
              direct,
              listed,
              run_rlc-eq magic more e d,
              well (rlc_command more),
              well rustc_command,
            )))
      | inr listed ↦ inl (rw (direct, listed, well rustc_command))
    ]
  ]
