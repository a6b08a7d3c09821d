-- ===== src/Cargo/Phases/Start.antt =====
-- What `cargo rlc` does before it builds.
use text.Mathlib.TextPositions.{eq_refl}
use rul_checker.Prelude.{◌≡◌, refl, true, false, List, [], ◌∷◌, some, All}
use rul_checker.Prelude.Texts.{String, ◌==str◌}
use rul_checker.Cargo.{new_command, add_args, success, removes_root, runs, done, World}
use rul_checker.Cargo.Phases.{any_from, sysroot_command, phase_preprocess}

module _ (world : World) where
  open world use {args, status, printed_path, find_rlc}

  any_from-none :
      (name : String) (more : List String)
      → All (λ a. (a ==str name) ≡ false) more
      → any_from world name more ≡ (false, [])
  unfolding any_from
  any_from-none name [] h = refl
  any_from-none name (a ∷ more) h = rw (h.0, any_from-none name more h.1)

  -- With no argument `--help`, `rustc` and `rlc` printing one sysroot, and `cargo clean` and the
  -- removal of the work directory succeeding, the preparation runs `cargo clean`, removes the
  -- directory and goes on; it does not show the version, also if an argument is `--version`.
  pub phase_preprocess-eq :
      (root : String)
      → All (λ a. (a ==str "--help") ≡ false) args
      → printed_path (sysroot_command world "rustc") ≡ some root
      → printed_path (sysroot_command world find_rlc) ≡ some root
      → status (add_args (new_command "cargo") ("clean" ∷ [])) ≡ success
      → world.can_remove_root ≡ true
      → phase_preprocess world
        ≡ (runs (add_args (new_command "cargo") ("clean" ∷ [])) ∷ removes_root ∷ [], done tt)
  unfolding phase_preprocess
  phase_preprocess-eq root help rustc rlc clean removed =
      rw (any_from-none "--help" args help, rustc, rlc, eq_refl root, clean, removed)
