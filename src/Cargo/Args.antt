-- ===== src/Cargo/Args.antt =====
-- How src/bin/cargo-rlc.rs reads its arguments: flags before the first `--`, and their values.
pub mod Values
use rul_checker.Prelude.{
  Bool, true, false, not, ◌||◌, List, [], ◌∷◌, Option, none, some, if◌then◌else◌, drop,
}
use rul_checker.Prelude.Texts.{String, len, slice, starts_with, ◌==str◌}

-- `take_while(|val| val != "--")` and `skip_while(|val| val == "--")`
unfoldable pub until_dashes : List String → List String
until_dashes [] = []
until_dashes (a ∷ args) = let rest = until_dashes args in if a ==str "--" then [] else a ∷ rest

pub skip_dashes : List String → List String
skip_dashes [] = []
skip_dashes (a ∷ args) = let rest = skip_dashes args in if a ==str "--" then rest else a ∷ args

pub any_equal : List String → String → Bool
any_equal [] name = false
any_equal (a ∷ args) name = a ==str name || any_equal args name

unfoldable pub has_arg_flag : List String → String → Bool
unfolding until_dashes any_equal
has_arg_flag args name = any_equal (until_dashes args) name

unfoldable pub has_rlc_arg_flag : List String → String → Bool
unfolding skip_dashes any_equal
has_rlc_arg_flag args name = any_equal (skip_dashes args) name

abbrev pub next_arg : List String → Option String
next_arg [] = none
next_arg (a ∷ args) = some a

-- What an argument is to a flag: not the flag, the flag alone, or the flag with a value.
pub data Match : Type 0 where
  no_match exact : Match
  valued : String → Match

unfoldable pub match_arg : String → String → Match
match_arg name arg =
    if not (starts_with arg name)
    then no_match
    else (let suffix = slice arg (len name) (len arg) in
        if suffix ==str ""
        then exact
        else if starts_with suffix "="
        then valued (slice suffix 1 (len suffix))
        else no_match)

-- `ArgFlagValueIter::next`, over what `take_while` passes on.
unfoldable pub next : String → List String → Option String
unfolding match_arg
next name [] = none
next name (arg ∷ args) = elim (match_arg name arg) [
  | no_match ↦ next name args
  | exact ↦ next_arg args
  | valued value ↦ some value
]

unfoldable pub get_arg_flag_value : List String → String → Option String
unfolding next until_dashes
get_arg_flag_value args name = next name (until_dashes args)

-- The suffix of an argument that starts with the flag: nothing, a value, or something else, at which
-- `any_arg_flag` gives up.
pub data Suffix : Type 0 where
  other_arg alone garbled : Suffix
  holds : String → Suffix

unfoldable pub suffix_of : String → String → Suffix
suffix_of name arg =
    if not (starts_with arg name)
    then other_arg
    else (let suffix = slice arg (len name) (len arg) in
        if suffix ==str ""
        then alone
        else if starts_with suffix "="
        then holds (slice suffix 1 (len suffix))
        else garbled)

-- `any_arg_flag`; the flag is set while its value is awaited.
unfoldable pub any_value : String → (String → Bool) → Bool → List String → Bool
unfolding suffix_of
any_value name check awaited [] = false
any_value name check true (arg ∷ args) = check arg || any_value name check false args
any_value name check false (arg ∷ args) = elim (suffix_of name arg) [
  | other_arg ↦ any_value name check false args
  | alone ↦ any_value name check true args
  | garbled ↦ false
  | holds value ↦ check value || any_value name check false args
]

unfoldable pub any_arg_flag : List String → String → (String → Bool) → Bool
unfolding any_value until_dashes
any_arg_flag args name check = any_value name check false (until_dashes args)

-- The `while let` of `phase_cargo_rlc`: what goes to cargo, and what is left after the `--`.
unfoldable pub forward : List String → List String × List String
forward [] = ([], [])
forward (a ∷ args) =
    let rest = forward args in if a ==str "--" then ([], args) else (a ∷ rest.0, rest.1)
