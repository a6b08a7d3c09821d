-- ===== src/TypeVisitor/Propagation/Marks.antt =====
-- Marking parameters sets flags, within the bounds, and clears none.
use rul_checker.Prelude.{
  ℕ, zero, suc, ◌≡◌, refl, ◌∙◌, Bool, true, false, List, [], ◌∷◌, arith, All, length, set,
  length-set, ◌==◌, if◌then◌else◌, Bool-cases, inl, inr,
}
use rul_checker.Run.{Returns, >>=-Returns, Returns-map}
use rul_checker.Rustc.{GenericArg, type_arg, lifetime, const_arg}
use rul_checker.Rustc.Shape.{type_args}
use rul_checker.TypeVisitor.{Visit}
use rul_checker.TypeVisitor.RawGeneric.{RawGeneric, Parameters, contains_param}
use rul_checker.TypeVisitor.RawGeneric.Params.{mark-eq}
use rul_checker.TypeVisitor.RawGeneric.Bounded.{IsBelow}
use rul_checker.TypeVisitor.Propagation.{params_of_args, params_at, mark_each, mark_flags}

-- The flags of the first list stay set in the second.
abbrev pub Implied : List Bool → List Bool → Type 0
Implied [] [] = Unit
Implied (a ∷ xs) (b ∷ ys) = (a ≡ true → b ≡ true) × Implied xs ys
Implied [] (b ∷ ys) = ⊥
Implied (a ∷ xs) [] = ⊥

pub Implied-refl : (s : List Bool) → Implied s s
Implied-refl [] = tt
Implied-refl (b ∷ s) = (λ e. e, Implied-refl s)

pub Implied-trans : (a b c : List Bool) → Implied a b → Implied b c → Implied a c
Implied-trans [] [] [] h k = tt
Implied-trans (x ∷ a) (y ∷ b) (z ∷ c) h k = (λ e. k.0 (h.0 e), Implied-trans a b c h.1 k.1)
Implied-trans [] [] (z ∷ c) h k = k
Implied-trans [] (y ∷ b) c h k = absurd h
Implied-trans (x ∷ a) [] c h k = absurd h
Implied-trans (x ∷ a) (y ∷ b) [] h k = k

pub Implied-length : (a b : List Bool) → Implied a b → length b ≡ length a
Implied-length [] [] h = refl
Implied-length (x ∷ a) (y ∷ b) h = let ih = Implied-length a b h.1 in omega arith
Implied-length [] (y ∷ b) h = absurd h
Implied-length (x ∷ a) [] h = absurd h

Implied-set : (s : List Bool) (i : ℕ) → Implied s (set s i true)
Implied-set [] i = tt
Implied-set (b ∷ s) zero = (λ e. refl, Implied-refl s)
Implied-set (b ∷ s) (suc i) = (λ e. e, Implied-set s i)

mark_each-Returns :
    (ps : Parameters) (s : RawGeneric)
    → IsBelow (length s) ps
    → Returns (Implied s) (mark_each ps s)
unfolding mark_each
mark_each-Returns [] s h = Implied-refl s
mark_each-Returns (p ∷ ps) s h = rw (mark-eq s p h.0) (
    Returns-map (mark_each ps (set s p true))
      (mark_each-Returns ps (set s p true) (rw (length-set s p true) h.1))
      (λ s' k. Implied-trans s (set s p true) s' (Implied-set s p) k))

-- The parameters of each argument are below the bound.
abbrev pub AllBelow : ℕ → List (ℕ × Parameters) → Type 0
AllBelow n m = All (λ e. IsBelow n e.1) m

params_at-IsBelow :
    (n : ℕ) (m : List (ℕ × Parameters)) (i : ℕ) → AllBelow n m → IsBelow n (params_at m i)
params_at-IsBelow n [] i h = tt
params_at-IsBelow n ((j, ps) ∷ m) i h = elim (Bool-cases (j == i)) [
  | inl e ↦ rw e h.0
  | inr e ↦ rw e (params_at-IsBelow n m i h.1)
]

pub mark_flags-Returns :
    (m : List (ℕ × Parameters)) (n i : ℕ) (fs : List Bool) (s : RawGeneric)
    → AllBelow n m
    → length s ≡ n
    → Returns (Implied s) (mark_flags m i fs s)
unfolding mark_flags
mark_flags-Returns m n i [] s h e = Implied-refl s
mark_flags-Returns m n i (false ∷ fs) s h e = mark_flags-Returns m n (suc i) fs s h e
mark_flags-Returns m n i (true ∷ fs) s h e =
    >>=-Returns (Implied s) (Implied s) (mark_each (params_at m i) s) _
      (mark_each-Returns (params_at m i) s (rw e (params_at-IsBelow n m i h)))
      (λ s' k.
        Returns-map (mark_flags m (suc i) fs s')
          (mark_flags-Returns m n (suc i) fs s' h (Implied-length s s' k ∙ e))
          (λ s'' k'. Implied-trans s s' s'' k k'))

-- The parameters of the arguments are found, whatever the arguments are.
pub params_of_args-Returns :
    {T : Type 0} (w : Visit T Parameters) (n i : ℕ) (args : List (GenericArg T))
    → All (λ t. Returns (λ r. IsBelow n r.1) (w t [])) (type_args args)
    → Returns (AllBelow n) (params_of_args w i args)
unfolding params_of_args
params_of_args-Returns w n i [] h = tt
params_of_args-Returns w n i (lifetime region ∷ args) h = params_of_args-Returns w n (suc i) args h
params_of_args-Returns w n i (const_arg ct ∷ args) h = params_of_args-Returns w n (suc i) args h
params_of_args-Returns w n i (type_arg t ∷ args) h =
    >>=-Returns (λ r. IsBelow n r.1) (AllBelow n) (w t []) _ h.0
      (λ r k.
        >>=-Returns (AllBelow n) (AllBelow n) (params_of_args w (suc i) args) _
          (params_of_args-Returns w n (suc i) args h.1) (λ m k'. add r.1 m k k'))
  where
    add :
        (ps : Parameters) (m : List (ℕ × Parameters))
        → IsBelow n ps
        → AllBelow n m
        → AllBelow n (if contains_param ps then (i, ps) ∷ m else m)
    add [] m h' k = k
    add (p ∷ ps) m h' k = (h', k)
