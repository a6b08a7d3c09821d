-- ===== src/Driver/Named.antt =====
-- The options of RLC by their names, and what `config_parse` makes of them.
use text.Mathlib.TextEquality.{eq_iff}
use rul_checker.Prelude.{
  ◌≡◌, refl, sym, ◌∙◌, subst, Bool, true, false, ◌||◌, List, [], ◌∷◌, Option, none, some,
  if◌then◌else◌, Bool-cases, inl, inr,
}
use rul_checker.Prelude.Texts.{String, ◌==str◌}
use rul_checker.Driver.{
  RlcGrain, low, medium, high, ultra, info, MirDisplay, mir_verbose, mir_very_verbose, mir_disabled,
  AdtOwnerDisplay, adt_verbose, adt_disabled, Z3GoalDisplay, z3_verbose, z3_disabled,
  IcxSliceDisplay, icx_verbose, icx_disabled, Flag, flag_of, config_parse,
}
use rul_checker.Driver.Options.{
  keep, others, add_flag, flags, or_later, or_default, last_of, grain_in, mir_in, adt_in, z3_in,
  icx_in, config_parse-flags,
}

-- The values of each kind of option, under their names.
abbrev pub grain_names : List (String × RlcGrain)
grain_names =
    ("-GRAIN=LOW", low)
    ∷ ("-GRAIN=MEDIUM", medium)
    ∷ ("-GRAIN=HIGH", high)
    ∷ ("-GRAIN=ULTRA", ultra)
    ∷ []

abbrev pub mir_names : List (String × MirDisplay)
mir_names = ("-MIR=V", mir_verbose) ∷ ("-MIR=VV", mir_very_verbose) ∷ []

abbrev pub adt_names : List (String × AdtOwnerDisplay)
adt_names = ("-ADT=V", adt_verbose) ∷ []

abbrev pub z3_names : List (String × Z3GoalDisplay)
z3_names = ("-Z3-GOAL=V", z3_verbose) ∷ []

abbrev pub icx_names : List (String × IcxSliceDisplay)
icx_names = ("-ICX-SLICE=V", icx_verbose) ∷ []

abbrev pub has_name : {A : Type 0} → List (String × A) → String → Bool
has_name [] arg = false
has_name ((name, a) ∷ names) arg = arg ==str name || has_name names arg

abbrev pub lookup : {A : Type 0} → List (String × A) → String → Option A
lookup [] arg = none
lookup ((name, a) ∷ names) arg = if arg ==str name then some a else lookup names arg

-- The value of the last argument that names one, if any does, or the default.
abbrev pub last_named : {A : Type 0} → List (String × A) → List String → Option A
last_named names [] = none
last_named names (arg ∷ rest) = or_later (lookup names arg) (last_named names rest)

abbrev pub chosen : {A : Type 0} → List (String × A) → A → List String → A
chosen names default args = or_default (last_named names args) default

abbrev pub is_option : String → Bool
is_option arg =
    has_name grain_names arg
    || (has_name mir_names arg
        || (has_name adt_names arg || (has_name z3_names arg || has_name icx_names arg)))

-- The arguments that are no option of RLC.
abbrev pub not_options : List String → List String
not_options [] = []
not_options (arg ∷ rest) = if is_option arg then not_options rest else arg ∷ not_options rest

abbrev picked : {A : Type 0} → (Flag → Option A) → Option Flag → Option A
picked pick none = none
picked pick (some f) = pick f

abbrev is_some : Option Flag → Bool
is_some none = false
is_some (some f) = true

-- What is read of an argument is what its name says.
abbrev Agrees : String → Option Flag → Type 0
Agrees arg o =
    (picked grain_in o ≡ lookup grain_names arg)
    × (picked mir_in o ≡ lookup mir_names arg)
    × (picked adt_in o ≡ lookup adt_names arg)
    × (picked z3_in o ≡ lookup z3_names arg)
    × (picked icx_in o ≡ lookup icx_names arg)
    × (is_some o ≡ is_option arg)

if-Agrees :
    (arg name : String) (f : Flag) (o : Option Flag)
    → Agrees name (some f)
    → ((arg ==str name) ≡ false → Agrees arg o)
    → Agrees arg (if arg ==str name then some f else o)
if-Agrees arg name f o h k = elim (Bool-cases (arg ==str name)) [
  | inl same ↦ rw same (subst (λ x. Agrees x (some f)) (sym ((eq_iff arg name).0 same)) h)
  | inr other ↦ rw other (k other)
]

flag_of-Agrees : (arg : String) → Agrees arg (flag_of arg)
unfolding flag_of
flag_of-Agrees arg =
    if-Agrees arg "-GRAIN=LOW" _ _ (refl, refl, refl, refl, refl, refl)
      (λ n1.
        if-Agrees arg "-GRAIN=MEDIUM" _ _ (refl, refl, refl, refl, refl, refl)
          (λ n2.
            if-Agrees arg "-GRAIN=HIGH" _ _ (refl, refl, refl, refl, refl, refl)
              (λ n3.
                if-Agrees arg "-GRAIN=ULTRA" _ _ (refl, refl, refl, refl, refl, refl)
                  (λ n4.
                    if-Agrees arg "-MIR=V" _ _ (refl, refl, refl, refl, refl, refl)
                      (λ n5.
                        if-Agrees arg "-MIR=VV" _ _ (refl, refl, refl, refl, refl, refl)
                          (λ n6.
                            if-Agrees arg "-ADT=V" _ _ (refl, refl, refl, refl, refl, refl)
                              (λ n7.
                                if-Agrees arg "-Z3-GOAL=V" _ _ (refl, refl, refl, refl, refl, refl)
                                  (λ n8.
                                    if-Agrees arg "-ICX-SLICE=V" _ _
                                      (refl, refl, refl, refl, refl, refl)
                                      (λ n9.
                                        rw (n1, n2, n3, n4, n5, n6, n7, n8, n9)
                                          (refl, refl, refl, refl, refl, refl))))))))))

or_later-none : {A : Type 0} (b : Option A) → b ≡ or_later none b
or_later-none none = refl
or_later-none (some b) = refl

last_of-add_flag :
    {A : Type 0} (pick : Flag → Option A) (o : Option Flag) (fs : List Flag)
    → last_of pick (add_flag o fs) ≡ or_later (picked pick o) (last_of pick fs)
last_of-add_flag pick none fs = or_later-none (last_of pick fs)
last_of-add_flag pick (some f) fs = refl

last_of-flags :
    {A : Type 0} (pick : Flag → Option A) (names : List (String × A))
    → ((arg : String) → picked pick (flag_of arg) ≡ lookup names arg)
    → (args : List String) → last_of pick (flags args) ≡ last_named names args
unfolding flags
last_of-flags pick names h [] = refl
last_of-flags pick names h (arg ∷ rest) =
    last_of-add_flag pick (flag_of arg) (flags rest) ∙ rw (h arg, last_of-flags pick names h rest)

others-eq : (args : List String) → others args ≡ not_options args
unfolding others
others-eq [] = refl
others-eq (arg ∷ rest) = cases (flag_of arg) (flag_of-Agrees arg).5 (others-eq rest)
  where
    cases :
        (o : Option Flag)
        → is_some o ≡ is_option arg
        → others rest ≡ not_options rest
        → keep o arg (others rest) ≡ not_options (arg ∷ rest)
    cases none e h = rw (sym e, h)
    cases (some f) e h = rw (sym e) h

-- `config_parse` takes the options of RLC, the nine names of the tables `grain_names` to `icx_names`,
-- out of the arguments, keeping the others in order. Each field of the configuration has the value that the
-- last option of its kind names, or its default: the lowest grain and nothing displayed. The
-- verbosity is the default.
pub config_parse-eq :
    (env_args : List String)
    → config_parse env_args ≡ record {
      rlc_config = record {
        grain = chosen grain_names low env_args;
        verbose = info;
        mir_display = chosen mir_names mir_disabled env_args;
        adt_display = chosen adt_names adt_disabled env_args;
        z3_goal_display = chosen z3_names z3_disabled env_args;
        icx_slice_display = chosen icx_names icx_disabled env_args;
      };
      args = not_options env_args;
    }
config_parse-eq env_args =
    config_parse-flags env_args
    ∙ rw
        (
          last_of-flags grain_in grain_names (λ arg. (flag_of-Agrees arg).0) env_args,
          last_of-flags mir_in mir_names (λ arg. (flag_of-Agrees arg).1) env_args,
          last_of-flags adt_in adt_names (λ arg. (flag_of-Agrees arg).2) env_args,
          last_of-flags z3_in z3_names (λ arg. (flag_of-Agrees arg).3) env_args,
          last_of-flags icx_in icx_names (λ arg. (flag_of-Agrees arg).4) env_args,
          others-eq env_args,
        )
        refl
