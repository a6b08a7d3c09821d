-- ===== src/Run.antt =====
-- What a run of the code ends in: a value, a panic (an index out of bounds, an `unwrap` of nothing,
-- a failed assertion, `unreachable!`), or the end of the fuel that stands for unbounded recursion.
use rul_checker.Prelude.{
  ◌≡◌, refl, Option, none, some, List, [], ◌∷◌, get_elem?, ℕ, zero, suc, ◌<◌, length, All, arith,
}

pub data Run (A : Type 0) : Type 0 where
  ret : A → Run A
  panic out_of_fuel : Run A

infixl 5 ◌>>=◌
abbrev pub ◌>>=◌ : {A B : Type 0} → Run A → (A → Run B) → Run B
ret a >>= f = f a
panic >>= f = panic
out_of_fuel >>= f = out_of_fuel

-- `o.unwrap()`
abbrev pub unwrap : {A : Type 0} → Option A → Run A
unwrap none = panic
unwrap (some a) = ret a

-- `v[i]`
abbrev pub index : {A : Type 0} → List A → ℕ → Run A
index v i = unwrap (get_elem? v i)

-- Inversion of a bind that returns.
pub >>=-eq-ret :
    {A B : Type 0} (m : Run A) (f : A → Run B) {b : B}
    → (m >>= f) ≡ ret b
    → (a : A) × (m ≡ ret a) × (f a ≡ ret b)
>>=-eq-ret (ret a) f h = (a, refl, h)
>>=-eq-ret panic f h = cc
>>=-eq-ret out_of_fuel f h = cc

-- The outcome is a value or a panic: the fuel was enough.
abbrev pub Ends : {A : Type 0} → Run A → Type 0
Ends (ret a) = Unit
Ends panic = Unit
Ends out_of_fuel = ⊥

pub >>=-Ends :
    {A B : Type 0} (m : Run A) (f : A → Run B) → Ends m → ((a : A) → Ends (f a)) → Ends (m >>= f)
>>=-Ends (ret a) f h k = k a
>>=-Ends panic f h k = tt
>>=-Ends out_of_fuel f h k = h

-- The outcome, if it is a value, has the property.
abbrev pub Holds : {A : Type 0} → (A → Type 0) → Run A → Type 0
Holds P (ret a) = P a
Holds P panic = Unit
Holds P out_of_fuel = Unit

pub >>=-Holds :
    {A B : Type 0} (P : A → Type 0) (Q : B → Type 0) (m : Run A) (f : A → Run B)
    → Holds P m
    → ((a : A) → P a → Holds Q (f a))
    → Holds Q (m >>= f)
>>=-Holds P Q (ret a) f h k = k a h
>>=-Holds P Q panic f h k = tt
>>=-Holds P Q out_of_fuel f h k = tt

pub Holds-true : {A : Type 0} (m : Run A) → Holds (λ a. Unit {0}) m
Holds-true (ret a) = tt
Holds-true panic = tt
Holds-true out_of_fuel = tt

-- The outcome itself, as a property.
pub Holds-self : {A : Type 0} (m : Run A) → Holds (λ a. m ≡ ret a) m
Holds-self (ret a) = refl
Holds-self panic = tt
Holds-self out_of_fuel = tt

pub Ends-unwrap : {A : Type 0} (o : Option A) → Ends (unwrap o)
Ends-unwrap none = tt
Ends-unwrap (some a) = tt

-- As >>=-Ends, where the rest may use that the first part returned.
pub >>=-Ends_of_ret :
    {A B : Type 0} (m : Run A) (f : A → Run B)
    → Ends m
    → ((a : A) → m ≡ ret a → Ends (f a))
    → Ends (m >>= f)
>>=-Ends_of_ret (ret a) f h k = k a refl
>>=-Ends_of_ret panic f h k = tt
>>=-Ends_of_ret out_of_fuel f h k = h

pub unwrap-eq-ret : {A : Type 0} (o : Option A) {a : A} → unwrap o ≡ ret a → o ≡ some a
unwrap-eq-ret none h = cc
unwrap-eq-ret (some b) h = cc

-- The outcome is a value, and has the property: no panic, and the fuel was enough.
abbrev pub Returns : {A : Type 0} → (A → Type 0) → Run A → Type 0
Returns P (ret a) = P a
Returns P panic = ⊥
Returns P out_of_fuel = ⊥

pub >>=-Returns :
    {A B : Type 0} (P : A → Type 0) (Q : B → Type 0) (m : Run A) (f : A → Run B)
    → Returns P m
    → ((a : A) → P a → Returns Q (f a))
    → Returns Q (m >>= f)
>>=-Returns P Q (ret a) f h k = k a h
>>=-Returns P Q panic f h k = h
>>=-Returns P Q out_of_fuel f h k = h

pub Returns-map :
    {A : Type 0} {P Q : A → Type 0} (m : Run A) → Returns P m → ((a : A) → P a → Q a) → Returns Q m
Returns-map (ret a) h k = k a h
Returns-map panic h k = h
Returns-map out_of_fuel h k = h

pub index-Returns :
    {A : Type 0} (P : A → Type 0) (v : List A) (i : ℕ)
    → All P v
    → i < length v
    → Returns P (index v i)
index-Returns P [] i h k = absurd (omega arith)
index-Returns P (x ∷ v) zero h k = h.0
index-Returns P (x ∷ v) (suc i) h k = index-Returns P v i h.1 (omega arith)

-- `o.unwrap()`, where there is a value.
pub unwrap-Returns :
    {A B : Type 0} (o : Option A) (Q : B → Type 0) (f : A → Run B)
    → ((a : A) × (o ≡ some a))
    → ((a : A) → o ≡ some a → Returns Q (f a))
    → Returns Q (unwrap o >>= f)
unwrap-Returns o Q f h k = rw h.1 (k h.0 h.1)
