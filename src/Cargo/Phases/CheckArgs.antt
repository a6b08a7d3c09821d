-- ===== src/Cargo/Phases/CheckArgs.antt =====
-- The arguments of `cargo check`, and the target that they name.
use mathlib.Core.List.{append-nil, append_assoc}
use rul_checker.Prelude.{
  ◌≡◌, refl, ◌∙◌, Bool, true, false, not, ◌&&◌, ◌||◌, List, [], ◌∷◌, ◌++◌, Option, none, some, drop,
  if◌then◌else◌, All,
}
use rul_checker.Prelude.Texts.{String, ◌==str◌}
use rul_checker.Cargo.{Command, World}
use rul_checker.Cargo.Args.{
  until_dashes, has_arg_flag, has_rlc_arg_flag, no_match, exact, match_arg, next,
  get_arg_flag_value,
}
use rul_checker.Cargo.Args.Values.{
  next-cons, next-append_no_match, next-append_none, ends_bare, forward-until_dashes,
}
use rul_checker.Cargo.Phases.{is_some, env_if, rlc_add_env, check_command}

module _ (world : World) where
  open world use {args, host}

  args-env_if : (b : Bool) (k v : String) (cmd : Command) → (env_if world b k v cmd).args ≡ cmd.args
  args-env_if true k v cmd = refl
  args-env_if false k v cmd = refl

  args-rlc_add_env : (cmd : Command) → (rlc_add_env world cmd).args ≡ cmd.args
  unfolding rlc_add_env
  args-rlc_add_env cmd =
      args-env_if (has_rlc_arg_flag args "-ICX-SLICE=V") "ICX_SLICE" "" _
      ∙ (args-env_if (has_rlc_arg_flag args "-Z3-GOAL=V") "Z3_GOAL" "" _
          ∙ (args-env_if (has_rlc_arg_flag args "-ADT=V") "ADT_DISPLAY" "" _
              ∙ (args-env_if (has_rlc_arg_flag args "-MIR=VV") "MIR_DISPLAY" "VERY VERBOSE" _
                  ∙ args-env_if (has_rlc_arg_flag args "-MIR=V") "MIR_DISPLAY" "VERBOSE" cmd)))

  abbrev pub quiet : List String
  quiet =
      if not world.debug_assertions && not (has_arg_flag args "-v" || has_arg_flag args "-vv")
      then "-q" ∷ []
      else []

  abbrev pub target_args : Bool → List String
  target_args given = if given then [] else "--target" ∷ host ∷ []

  args-check_command :
      (cmd : Command)
      → (check_command world cmd).args
        ≡ ((cmd.args ++ quiet) ++ until_dashes (drop 2 args))
          ++ target_args (is_some (get_arg_flag_value args "--target"))
  unfolding check_command
  args-check_command cmd =
      args-rlc_add_env _
      ∙ (args-env_if (has_arg_flag args "-vv") "RLC_VERBOSE" "VERY VERBOSE" _
          ∙ (args-env_if (has_arg_flag args "-v") "RLC_VERBOSE" "VERBOSE" _
              ∙ rw (forward-until_dashes (drop 2 args))))

  rlc-no_match : match_arg "--target" "rlc" ≡ no_match
  unfolding match_arg
  rlc-no_match = refl

  next-head :
      (exe : String) (more : List String)
      → match_arg "--target" exe ≡ no_match
      → next "--target" (exe ∷ "rlc" ∷ more) ≡ next "--target" more
  next-head exe more h =
      next-cons "--target" exe ("rlc" ∷ more) h ∙ next-cons "--target" "rlc" more rlc-no_match

  until_dashes-head :
      (exe : String) (more : List String)
      → (exe ==str "--") ≡ false
      → until_dashes (exe ∷ "rlc" ∷ more) ≡ exe ∷ "rlc" ∷ until_dashes more
  unfolding until_dashes
  until_dashes-head exe more h = rw h

  given-eq :
      (exe : String) (more : List String)
      → args ≡ exe ∷ "rlc" ∷ more
      → (exe ==str "--") ≡ false
      → match_arg "--target" exe ≡ no_match
      → get_arg_flag_value args "--target" ≡ next "--target" (until_dashes more)
  unfolding get_arg_flag_value
  given-eq exe more e dashes other =
      rw (e, until_dashes-head exe more dashes) (next-head exe (until_dashes more) other)

  quiet-no_match : All (λ a. match_arg "--target" a ≡ no_match) quiet
  unfolding match_arg
  quiet-no_match =
      cases (not world.debug_assertions && not (has_arg_flag args "-v" || has_arg_flag args "-vv"))
    where
      cases :
          (b : Bool) → All (λ a. match_arg "--target" a ≡ no_match) (if b then "-q" ∷ [] else [])
      cases true = (refl, tt)
      cases false = tt

  target-exact : match_arg "--target" "--target" ≡ exact
  unfolding match_arg
  target-exact = refl

  -- The target that `cargo check` is given, for the arguments of the user before the first `--`.
  abbrev pub or_host : Bool → Option String → String
  or_host bare (some value) = value
  or_host bare none = if bare then "--target" else host

  next-target_args :
      (user : List String) (o : Option String)
      → next "--target" user ≡ o
      → next "--target" (user ++ target_args (is_some o))
        ≡ some (or_host (ends_bare "--target" user) o)
  next-target_args user (some value) h = rw append-nil h
  next-target_args user none h = next-append_none "--target" "--target" host user target-exact h

  -- Called as `exe rlc more …`, where the name of the program is neither `--` nor the flag
  -- `--target`, and with a command that is not given a target so far, `cargo check` gets as arguments
  -- those of the command, `-q` in a release build that is not verbose, the user's before the first
  -- `--`, and the host as a target unless the user's give one. The target that it reads is then the
  -- user's, or the host; where the user's arguments end in a bare `--target`, which has no value, it
  -- is the text `--target`.
  pub next-check_command :
      (exe : String) (more : List String) (cmd : Command)
      → args ≡ exe ∷ "rlc" ∷ more
      → (exe ==str "--") ≡ false
      → match_arg "--target" exe ≡ no_match
      → All (λ a. match_arg "--target" a ≡ no_match) cmd.args
      → let user = until_dashes more in
        ((check_command world cmd).args
          ≡ ((cmd.args ++ quiet) ++ user) ++ target_args (is_some (next "--target" user)))
        × (next "--target" (check_command world cmd).args
            ≡ some (or_host (ends_bare "--target" user) (next "--target" user)))
  next-check_command exe more cmd e dashes other plain =
      let user = until_dashes more in
      let found = next "--target" user in
      let same : (check_command world cmd).args
          ≡ ((cmd.args ++ quiet) ++ user) ++ target_args (is_some found) =
        args-check_command cmd ∙ rw (given-eq exe more e dashes other, e) refl in
      (
        same,
        rw (same, append_assoc, append_assoc)
            (next-append_no_match "--target" cmd.args
                (quiet ++ (user ++ target_args (is_some found))) plain
              ∙ next-append_no_match "--target" quiet (user ++ target_args (is_some found))
                  quiet-no_match
              ∙ next-target_args user found refl),
      )
