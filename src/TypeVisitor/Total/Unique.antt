-- ===== src/TypeVisitor/Total/Unique.antt =====
-- The set `unique` of a visitor against recursive types: the definitions that are not in it yet
-- bound how deep the visits of fields nest.
use rul_checker.Prelude.{
  ℕ, suc, ◌<◌, ◌≤◌, ◌≡◌, refl, true, false, List, [], ◌∷◌, arith, ◌==◌, if◌then◌else◌, ==_iff,
  length, subst, sym, ◌∙◌, Bool-cases, inl, inr,
}
use rul_checker.Rustc.{DefId}
use rul_checker.TypeVisitor.{contains, remove}

-- The set keeps what it holds.
abbrev pub Grows : List DefId → List DefId → Type 0
Grows us vs = (e : DefId) → contains us e ≡ true → contains vs e ≡ true

pub Grows-refl : (us : List DefId) → Grows us us
Grows-refl us e h = h

pub Grows-trans : (us vs ws : List DefId) → Grows us vs → Grows vs ws → Grows us ws
Grows-trans us vs ws h k e m = k e (h e m)

-- How many of the definitions are not in the set.
unfoldable pub missing : List DefId → List DefId → ℕ
missing [] us = 0
missing (d ∷ ds) us = let n = missing ds us in if contains us d then n else suc n

pub missing_mono : (ds us vs : List DefId) → Grows us vs → missing ds vs ≤ missing ds us
unfolding missing
missing_mono [] us vs h = omega arith
missing_mono (d ∷ ds) us vs h = ground (arith, h d, missing_mono ds us vs h)

pub Grows-cons : (us : List DefId) (d : DefId) → Grows us (d ∷ us)
Grows-cons us d e h = ground (arith, h)

pub missing-cons :
    (ds us : List DefId) (d : DefId)
    → contains us d ≡ false
    → contains ds d ≡ true
    → missing ds (d ∷ us) < missing ds us
unfolding missing
missing-cons [] us d h k = cc
missing-cons (e ∷ ds) us d h k = elim (Bool-cases (d == e)) [
  | inl same ↦
      (let eq : d ≡ e = (==_iff d e).0 same in
        let gone : contains us e ≡ false = subst (λ x. contains us x ≡ false) eq h in
        let less = missing_mono ds us (d ∷ us) (Grows-cons us d) in
        let refl_d : (e == d) ≡ true = ground (arith, eq) in
        rw (gone, refl_d) (omega (arith, less)))
  | inr other ↦
      (let rest : contains ds d ≡ true = ground (arith, k, other) in
        let ih = missing-cons ds us d h rest in
        let flip : (e == d) ≡ false = ground (arith, other) in ground (arith, ih, flip))
]

contains-remove :
    (vs : List DefId) (d e : DefId) → (e == d) ≡ false → contains (remove vs d) e ≡ contains vs e
contains-remove [] d e h = refl
contains-remove (v ∷ vs) d e h = ground (arith, h, contains-remove vs d e h)

true-ne-false : (true ≡ false) → ⊥
true-ne-false h = cc

-- Removing what the set did not hold before leaves all that it held.
pub Grows-remove :
    (us vs : List DefId) (d : DefId) → contains us d ≡ false → Grows us vs → Grows us (remove vs d)
Grows-remove us vs d h k e m = elim (Bool-cases (e == d)) [
  | inl same ↦
      (let eq : e ≡ d = (==_iff e d).0 same in
        let held : contains us d ≡ true = subst (λ x. contains us x ≡ true) eq m in
        absurd (true-ne-false (sym held ∙ h)))
  | inr other ↦ contains-remove vs d e other ∙ k e m
]

pub Grows-inside :
    (us vs : List DefId) (d : DefId)
    → contains us d ≡ false
    → Grows (d ∷ us) vs
    → Grows us (remove vs d)
Grows-inside us vs d h k = Grows-remove us vs d h (λ e m. k e (Grows-cons us d e m))

pub missing-le-length : (ds us : List DefId) → missing ds us ≤ length ds
unfolding missing
missing-le-length [] us = omega arith
missing-le-length (d ∷ ds) us = ground (arith, missing-le-length ds us)
