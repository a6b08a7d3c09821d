-- ===== src/Cargo/Phases/Build.antt =====
-- The runs of `cargo check`, one for each target.
use mathlib.Core.List.{append-nil, append_assoc}
use rul_checker.Prelude.{◌≡◌, refl, ◌∙◌, List, [], ◌∷◌, ◌++◌, some, All, arith}
use rul_checker.Prelude.Texts.{String}
use rul_checker.Cargo.{
  Command, new_command, add_args, set_env, success, Event, runs, done, Target, World,
}
use rul_checker.Cargo.Targets.{TargetKind, library, bin, unspecified, as_u8, kind_of}
use rul_checker.Cargo.Targets.Order.{key, of_key, All-of_key, by_kind, sort_by_key-eq-by_kind}
use rul_checker.Cargo.Phases.{
  clean_command, clean_package, is_identified_target, check_command, check_identified,
  check_targets, phase_cargo_rlc,
}

module _ (world : World) where
  open world use {args, host, status, wait_timeout}

  abbrev check0 : Command
  check0 = add_args (new_command "cargo") ("check" ∷ [])

  -- The command that identifies a target, and the processes that building it starts.
  abbrev pub identified : TargetKind → Target → Command
  identified library t = set_env (add_args check0 ("--lib" ∷ [])) "RLC_LIB" ""
  identified bin t = set_env (add_args check0 ("--bin" ∷ t.name ∷ [])) "RLC_BIN" t.name
  identified unspecified t = check0

  abbrev pub build : TargetKind → String → Target → List Event
  build unspecified pkg t = []
  build k pkg t = runs (clean_command world pkg) ∷ runs (check_command world (identified k t)) ∷ []

  abbrev pub build_all : TargetKind → String → List Target → List Event
  build_all k pkg [] = []
  build_all k pkg (t ∷ ts) = build k pkg t ++ build_all k pkg ts

  abbrev build_each : String → List Target → List Event
  build_each pkg [] = []
  build_each pkg (t ∷ ts) = build (kind_of t) pkg t ++ build_each pkg ts

  module _ (runs_well : (cmd : Command) → status cmd ≡ success)
      (waits_well : (cmd : Command) → wait_timeout cmd ≡ some success) where
    check_targets-eq :
        (pkg : String) (ts : List Target)
        → check_targets world pkg ts ≡ (build_each pkg ts, done tt)
    unfolding check_targets is_identified_target clean_package check_identified
    check_targets-eq pkg [] = refl
    check_targets-eq pkg (t ∷ ts) = cases (kind_of t) refl (check_targets-eq pkg ts)
      where
        cases :
            (k : TargetKind)
            → kind_of t ≡ k
            → check_targets world pkg ts ≡ (build_each pkg ts, done tt)
            → check_targets world pkg (t ∷ ts) ≡ (build_each pkg (t ∷ ts), done tt)
        cases library e h = rw (e, runs_well, waits_well, h)
        cases bin e h = rw (e, runs_well, waits_well, h)
        cases unspecified e h = rw (e, h)

  as_u8_inj : (j k : TargetKind) → as_u8 j ≡ as_u8 k → j ≡ k
  as_u8_inj library library e = refl
  as_u8_inj bin bin e = refl
  as_u8_inj unspecified unspecified e = refl
  as_u8_inj library bin e = absurd (omega arith)
  as_u8_inj library unspecified e = absurd (omega arith)
  as_u8_inj bin library e = absurd (omega arith)
  as_u8_inj bin unspecified e = absurd (omega arith)
  as_u8_inj unspecified library e = absurd (omega arith)
  as_u8_inj unspecified bin e = absurd (omega arith)

  build_each_of_kind :
      (k : TargetKind) (pkg : String) (ts : List Target)
      → All (λ u. key u ≡ as_u8 k) ts
      → build_each pkg ts ≡ build_all k pkg ts
  build_each_of_kind k pkg [] h = refl
  build_each_of_kind k pkg (t ∷ ts) h =
      rw (as_u8_inj (kind_of t) k h.0, build_each_of_kind k pkg ts h.1)

  build_all-unspecified : (pkg : String) (ts : List Target) → build_all unspecified pkg ts ≡ []
  build_all-unspecified pkg [] = refl
  build_all-unspecified pkg (t ∷ ts) = build_all-unspecified pkg ts

  build_each-append :
      (pkg : String) (xs ys : List Target)
      → build_each pkg (xs ++ ys) ≡ build_each pkg xs ++ build_each pkg ys
  build_each-append pkg [] ys = refl
  build_each-append pkg (x ∷ xs) ys = rw (build_each-append pkg xs ys, append_assoc)

  build_each-by_kind :
      (pkg : String) (ts : List Target)
      → build_each pkg (by_kind ts)
        ≡ build_all library pkg (of_key 0 ts) ++ build_all bin pkg (of_key 1 ts)
  build_each-by_kind pkg ts =
      build_each-append pkg (of_key 0 ts) (of_key 1 ts ++ of_key 2 ts)
      ∙ rw (
        build_each-append pkg (of_key 1 ts) (of_key 2 ts),
        build_each_of_kind library pkg (of_key 0 ts) (All-of_key 0 ts),
        build_each_of_kind bin pkg (of_key 1 ts) (All-of_key 1 ts),
        build_each_of_kind unspecified pkg (of_key 2 ts) (All-of_key 2 ts),
        build_all-unspecified pkg (of_key 2 ts),
        append-nil,
      )

  -- Where the package is found and every process succeeds in time, `cargo rlc` goes on, and has
  -- cleaned and checked first the libraries of the package, then its binaries, each in the order of
  -- the package; for other targets it runs nothing.
  pub phase_cargo_rlc-eq :
      (pkg : String) (ts : List Target)
      → world.make_package ≡ done (pkg, ts)
      → ((cmd : Command) → status cmd ≡ success)
      → ((cmd : Command) → wait_timeout cmd ≡ some success)
      → phase_cargo_rlc world
        ≡ (build_all library pkg (of_key 0 ts) ++ build_all bin pkg (of_key 1 ts), done tt)
  unfolding phase_cargo_rlc
  phase_cargo_rlc-eq pkg ts found runs_well waits_well = rw (
    found,
    sort_by_key-eq-by_kind ts,
    check_targets-eq runs_well waits_well pkg (by_kind ts),
    build_each-by_kind pkg ts,
  )
