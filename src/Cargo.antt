-- ===== src/Cargo.antt =====
-- src/bin/cargo-rlc.rs: the command `cargo rlc`, which cargo then calls again in place of rustc. The
-- processes it starts and what it prints are recorded; the operating system, cargo, cargo_metadata
-- and serde_json are parameters.
pub mod Args
pub mod Targets
pub mod Phases
use rul_checker.Prelude.{
  ℕ, Bool, true, false, List, [], ◌∷◌, ◌++◌, Option, none, some, if◌then◌else◌,
}
use rul_checker.Prelude.Texts.{String, ◌==str◌}

-- std::process::Command: the program, its arguments and the variables set for it.
pub record Command : Type 0 where
  pub program : String
  pub args : List String
  pub envs : List (String × String)

abbrev pub new_command : String → Command
new_command program = record { program = program; args = []; envs = [] }

-- `cmd.args(…)` and `cmd.env(…)`; the last value of a variable counts.
abbrev pub add_args : Command → List String → Command
add_args cmd more = record cmd { args = cmd.args ++ more }

abbrev pub set_env : Command → String → String → Command
set_env cmd key value = record cmd { envs = (key, value) ∷ cmd.envs }

unfoldable pub get_env : List (String × String) → String → Option String
get_env [] key = none
get_env ((k, v) ∷ envs) key = let rest = get_env envs key in if k ==str key then some v else rest

-- How a child process ended: `failed` carries the exit code, if there is one; `not_run` is an error
-- in starting it.
pub data Status : Type 0 where
  success not_run : Status
  failed : Option ℕ → Status

-- What the program does, in order.
pub data Event : Type 0 where
  shows_help shows_version removes_root : Event
  runs : Command → Event

-- How a part of the program ends: it goes on, exits with a code, or panics.
pub data Result (A : Type 0) : Type 0 where
  done : A → Result A
  exits : ℕ → Result A
  panics : Result A

abbrev pub Proc : Type 0 → Type 0
Proc A = List Event × Result A

abbrev pub after_events : {A : Type 0} → List Event → Proc A → Proc A
after_events es p = (es ++ p.0, p.1)

abbrev pub resume : {A B : Type 0} → List Event → Result A → (A → Proc B) → Proc B
resume es (done a) f = after_events es (f a)
resume es (exits code) f = (es, exits code)
resume es panics f = (es, panics)

infixl 5 ◌>>=◌
abbrev pub ◌>>=◌ : {A B : Type 0} → Proc A → (A → Proc B) → Proc B
p >>= f = resume p.0 p.1 f

abbrev pub pure : {A : Type 0} → A → Proc A
pure a = ([], done a)

-- `rlc_error_and_exit`
abbrev pub error_and_exit : {A : Type 0} → Proc A
error_and_exit = ([], exits 1)

-- cargo_metadata::Target, as far as the code reads it.
pub record Target : Type 0 where
  pub name : String
  pub kind : List String

-- What surrounds a call of the program. How a child process ends hangs on its command alone; the
-- commands that ask for a path or for the host are not among the recorded events.
pub record World : Type 0 where
  -- `env::args()` and the environment variables
  pub args : List String
  pub env_var : String → Option String
  -- `cmd.status()`, and `child.wait_timeout(…)`, with nothing for a timeout
  pub status : Command → Status
  pub wait_timeout : Command → Option Status
  -- the canonical path that a command prints, if it succeeds and prints one
  pub printed_path : Command → Option String
  -- `env::current_exe()`, and the path of `rlc` beside it
  pub current_exe : String
  pub find_rlc : String
  -- `version_info().host`, and `cfg!(debug_assertions)`
  pub host : String
  pub debug_assertions : Bool
  -- serde_json on lists of strings
  pub to_string : List String → String
  pub from_str : String → Option (List String)
  -- `Path::is_relative` and `str::to_lowercase`
  pub is_relative : String → Bool
  pub to_lowercase : String → String
  -- `rlc_remove_dir` succeeds
  pub can_remove_root : Bool
  -- `make_package`: the name and the targets of the package, or the exit or panic of the search
  pub make_package : Result (String × List Target)
