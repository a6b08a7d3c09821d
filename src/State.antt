-- ===== src/State.antt =====
-- Code that changes a state and may panic, as a monad for `do`.
use rul_checker.Prelude.{ℕ, List, set, get_elem?, none, some}
use rul_checker.Run.{Run, ret, panic, out_of_fuel}

abbrev pub M : Type 0 → Type 0 → Type 0
M S A = S → Run (A × S)

infixl 5 ◌>>=◌ ◌>>◌
abbrev pub ◌>>=◌ : {S A B : Type 0} → M S A → (A → M S B) → M S B
◌>>=◌ m f s = elim (m s) [ ret (a, s') ↦ f a s' | panic ↦ panic | out_of_fuel ↦ out_of_fuel ]

abbrev pub ◌>>◌ : {S B : Type 0} → M S (Unit {0}) → M S B → M S B
m >> k = m >>= λ _. k

abbrev pub pure : {S A : Type 0} → A → M S A
pure a s = ret (a, s)

abbrev pub skip : {S : Type 0} → M S (Unit {0})
skip = pure tt

abbrev pub lift : {S A : Type 0} → Run A → M S A
lift r s = elim r [ ret a ↦ ret (a, s) | panic ↦ panic | out_of_fuel ↦ out_of_fuel ]

abbrev pub gets : {S A : Type 0} → (S → A) → M S A
gets f s = ret (f s, s)

abbrev pub modify : {S : Type 0} → (S → S) → M S (Unit {0})
modify f s = ret (tt, f s)

-- `v[i] = a`
abbrev pub write : {A : Type 0} → List A → ℕ → A → Run (List A)
write v i a = elim (get_elem? v i) [ none ↦ panic | some _ ↦ ret (set v i a) ]
