-- ===== src/Cargo/Args/Values.antt =====
-- Where the arguments split, and which value of a flag is found.
use rul_checker.Prelude.{
  ◌≡◌, refl, ◌∙◌, Bool, true, if◌then◌else◌, false, List, [], ◌∷◌, ◌++◌, none, some, All,
  Bool-cases, inl, inr,
}
use rul_checker.Prelude.Texts.{String, ◌==str◌}
use rul_checker.Cargo.Args.{
  until_dashes, Match, no_match, exact, valued, match_arg, next, next_arg, forward,
}

-- No argument is `--`.
abbrev pub NoDashes : List String → Type 0
NoDashes args = All (λ a. (a ==str "--") ≡ false) args

pub forward-append : (xs ys : List String) → NoDashes xs → forward (xs ++ "--" ∷ ys) ≡ (xs, ys)
unfolding forward
forward-append [] ys h = refl
forward-append (x ∷ xs) ys h = rw (h.0, forward-append xs ys h.1)

pub forward-until_dashes : (args : List String) → (forward args).0 ≡ until_dashes args
unfolding forward until_dashes
forward-until_dashes [] = refl
forward-until_dashes (a ∷ args) = elim (Bool-cases (a ==str "--")) [
  | inl e ↦ rw e
  | inr e ↦ rw (e, forward-until_dashes args)
]

-- An argument that is not the flag is passed over.
pub next-cons :
    (name a : String) (args : List String)
    → match_arg name a ≡ no_match
    → next name (a ∷ args) ≡ next name args
unfolding next
next-cons name a args h = cases (match_arg name a) h
  where
    cases :
        (m : Match)
        → m ≡ no_match
        → elim m [ no_match ↦ next name args | exact ↦ next_arg args | valued v ↦ some v ]
          ≡ next name args
    cases no_match e = refl
    cases exact e = cc
    cases (valued v) e = cc

pub next-append_no_match :
    (name : String) (xs ys : List String)
    → All (λ a. match_arg name a ≡ no_match) xs
    → next name (xs ++ ys) ≡ next name ys
next-append_no_match name [] ys h = refl
next-append_no_match name (x ∷ xs) ys h =
    next-cons name x (xs ++ ys) h.0 ∙ next-append_no_match name xs ys h.1

-- The last argument is the flag alone, which has no value then.
abbrev is_exact : Match → Bool
is_exact exact = true
is_exact _ = false

abbrev pub ends_bare : String → List String → Bool
ends_bare name [] = false
ends_bare name (a ∷ []) = is_exact (match_arg name a)
ends_bare name (a ∷ b ∷ args) = ends_bare name (b ∷ args)

next-exact :
    (name flag value : String)
    → match_arg name flag ≡ exact
    → next name (flag ∷ value ∷ []) ≡ some value
unfolding next
next-exact name flag value h = cases (match_arg name flag) h
  where
    cases :
        (m : Match)
        → m ≡ exact
        → elim m [ no_match ↦ next name (value ∷ []) | exact ↦ some value | valued v ↦ some v ]
          ≡ some value
    cases no_match e = cc
    cases exact e = refl
    cases (valued v) e = cc

-- A flag with its value after arguments that give it none: a bare flag just before takes the flag
-- itself as its value.
pub next-append_none :
    (name flag value : String) (xs : List String)
    → match_arg name flag ≡ exact
    → next name xs ≡ none
    → next name (xs ++ flag ∷ value ∷ []) ≡ some (if ends_bare name xs then flag else value)
unfolding next
next-append_none name flag value [] h k = next-exact name flag value h
next-append_none name flag value (x ∷ []) h k = cases (match_arg name x) k
  where
    cases :
        (m : Match)
        → elim m [ no_match ↦ none | exact ↦ none | valued v ↦ some v ] ≡ none
        → elim m [
          | no_match ↦ next name (flag ∷ value ∷ [])
          | exact ↦ some flag
          | valued v ↦ some v
        ]
          ≡ some (if is_exact m then flag else value)
    cases no_match e = next-exact name flag value h
    cases exact e = refl
    cases (valued v) e = cc
next-append_none name flag value (x ∷ y ∷ xs) h k =
    cases (match_arg name x) k (next-append_none name flag value (y ∷ xs) h)
  where
    cases :
        (m : Match)
        → elim m [ no_match ↦ next name (y ∷ xs) | exact ↦ some y | valued v ↦ some v ] ≡ none
        → (next name (y ∷ xs) ≡ none
            → next name (y ∷ (xs ++ flag ∷ value ∷ []))
              ≡ some (if ends_bare name (y ∷ xs) then flag else value))
        → elim m [
          | no_match ↦ next name (y ∷ (xs ++ flag ∷ value ∷ []))
          | exact ↦ some y
          | valued v ↦ some v
        ]
          ≡ some (if ends_bare name (y ∷ xs) then flag else value)
    cases no_match e ih = ih e
    cases exact e ih = cc
    cases (valued v) e ih = cc
