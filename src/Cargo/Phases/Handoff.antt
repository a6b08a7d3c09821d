-- ===== src/Cargo/Phases/Handoff.antt =====
-- How `cargo rlc` hands arguments to the calls that cargo makes of it in place of rustc.
use rul_checker.Prelude.{◌≡◌, refl, ◌∙◌, Bool, true, false, List, ◌∷◌, ◌++◌, some, drop}
use rul_checker.Prelude.Texts.{String, ◌==str◌}
use rul_checker.Cargo.{Command, new_command, add_args, get_env, World}
use rul_checker.Cargo.Args.{has_arg_flag, has_rlc_arg_flag, forward}
use rul_checker.Cargo.Args.Values.{NoDashes, forward-append}
use rul_checker.Cargo.Phases.{env_if, rlc_add_env, check_command, run_cmd, run_rlc, rustc_args}

module _ (world : World) where
  open world use {args}

  get_env-env_if :
      (b : Bool) (k v key : String) (cmd : Command)
      → (k ==str key) ≡ false
      → get_env (env_if world b k v cmd).envs key ≡ get_env cmd.envs key
  unfolding get_env
  get_env-env_if true k v key cmd h = rw h
  get_env-env_if false k v key cmd h = refl

  get_env-rlc_add_env :
      (cmd : Command)
      → get_env (rlc_add_env world cmd).envs "RLC_ARGS" ≡ get_env cmd.envs "RLC_ARGS"
  unfolding rlc_add_env
  get_env-rlc_add_env cmd =
      get_env-env_if (has_rlc_arg_flag args "-ICX-SLICE=V") "ICX_SLICE" "" "RLC_ARGS" _ refl
      ∙ (get_env-env_if (has_rlc_arg_flag args "-Z3-GOAL=V") "Z3_GOAL" "" "RLC_ARGS" _ refl
          ∙ (get_env-env_if (has_rlc_arg_flag args "-ADT=V") "ADT_DISPLAY" "" "RLC_ARGS" _ refl
              ∙ (get_env-env_if (has_rlc_arg_flag args "-MIR=VV") "MIR_DISPLAY" "VERY VERBOSE"
                    "RLC_ARGS" _ refl
                  ∙ get_env-env_if (has_rlc_arg_flag args "-MIR=V") "MIR_DISPLAY" "VERBOSE"
                      "RLC_ARGS" cmd refl)))

  get_env-check_command :
      (cmd : Command)
      → get_env (check_command world cmd).envs "RLC_ARGS"
        ≡ some (world.to_string (forward (drop 2 args)).1)
  unfolding check_command get_env
  get_env-check_command cmd =
      get_env-rlc_add_env _
      ∙ (get_env-env_if (has_arg_flag args "-vv") "RLC_VERBOSE" "VERY VERBOSE" "RLC_ARGS" _ refl
          ∙ get_env-env_if (has_arg_flag args "-v") "RLC_VERBOSE" "VERBOSE" "RLC_ARGS" _ refl)

-- For a call of `cargo rlc` with the arguments `before`, none of which is `--`, then `--`, then
-- `after`: when cargo calls the program back with the environment of the `cargo check` that was
-- built, the program runs `rlc` on the arguments meant for rustc followed by exactly `after`. The
-- JSON library reads back `after` from what it writes for it.
pub run_rlc-check_command :
    (caller callee : World) (exe : String) (before after : List String) (cmd : Command)
    → caller.args ≡ exe ∷ "rlc" ∷ (before ++ "--" ∷ after)
    → NoDashes before
    → callee.env_var "RLC_ARGS" ≡ get_env (check_command caller cmd).envs "RLC_ARGS"
    → callee.from_str (caller.to_string after) ≡ some after
    → run_rlc callee
      ≡ run_cmd callee (add_args (add_args (new_command callee.find_rlc) (rustc_args callee)) after)
unfolding run_rlc
run_rlc-check_command caller callee exe before after cmd e dashes env round =
    rw (env, get_env-check_command caller cmd, e, forward-append before after dashes, round)
