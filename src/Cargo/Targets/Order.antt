-- ===== src/Cargo/Targets/Order.antt =====
-- The order in which `cargo rlc` builds the targets of a package.
use rul_checker.Prelude.{
  ℕ, ◌<◌, ◌≤◌, ◌≡◌, refl, ◌∙◌, true, false, List, [], ◌∷◌, ◌++◌, arith, All, All-append, All-map,
  leb, ◌==◌, ==_iff, if◌then◌else◌, Bool-cases, inl, inr,
}
use rul_checker.Cargo.{Target}
use rul_checker.Cargo.Targets.{
  TargetKind, library, bin, unspecified, as_u8, kind_of, insert_by_key, sort_by_key,
}

abbrev pub key : Target → ℕ
key t = as_u8 (kind_of t)

-- The targets of one kind, in the order of the package.
abbrev pub of_key : ℕ → List Target → List Target
of_key n [] = []
of_key n (t ∷ ts) = let rest = of_key n ts in if key t == n then t ∷ rest else rest

insert_by_key-append :
    (t : Target) (ls rs : List Target)
    → All (λ u. key u < key t) ls
    → insert_by_key t (ls ++ rs) ≡ ls ++ insert_by_key t rs
unfolding insert_by_key
insert_by_key-append t [] rs h = refl
insert_by_key-append t (u ∷ ls) rs h =
    let less = h.0 in
    let past : leb (as_u8 (kind_of t)) (as_u8 (kind_of u)) ≡ false = ground arith in
    rw (past, insert_by_key-append t ls rs h.1)

insert_by_key-front :
    (t : Target) (rs : List Target) → All (λ u. key t ≤ key u) rs → insert_by_key t rs ≡ t ∷ rs
unfolding insert_by_key
insert_by_key-front t [] h = refl
insert_by_key-front t (u ∷ rs) h =
    let le = h.0 in
    let stop : leb (as_u8 (kind_of t)) (as_u8 (kind_of u)) ≡ true = ground arith in rw stop

pub All-of_key : (n : ℕ) (ts : List Target) → All (λ u. key u ≡ n) (of_key n ts)
All-of_key n [] = tt
All-of_key n (t ∷ ts) = elim (Bool-cases (key t == n)) [
  | inl e ↦ rw e ((==_iff (key t) n).0 e, All-of_key n ts)
  | inr e ↦ rw e (All-of_key n ts)
]

-- The targets by kind, each kind in the order of the package.
abbrev pub by_kind : List Target → List Target
by_kind ts = of_key 0 ts ++ (of_key 1 ts ++ of_key 2 ts)

insert_by_key-by_kind :
    (k : TargetKind) (t : Target) (ls bs us : List Target)
    → kind_of t ≡ k
    → All (λ u. key u ≡ 0) ls
    → All (λ u. key u ≡ 1) bs
    → All (λ u. key u ≡ 2) us
    → insert_by_key t (ls ++ (bs ++ us)) ≡ elim k [
      | library ↦ t ∷ (ls ++ (bs ++ us))
      | bin ↦ ls ++ (t ∷ (bs ++ us))
      | unspecified ↦ ls ++ (bs ++ (t ∷ us))
    ]
insert_by_key-by_kind library t ls bs us e hl hb hu =
    let zero_key : key t ≡ 0 = rw e in
    insert_by_key-front t (ls ++ (bs ++ us)) (all (ls ++ (bs ++ us)) zero_key)
  where
    all : (vs : List Target) → key t ≡ 0 → All (λ u. key t ≤ key u) vs
    all [] z = tt
    all (v ∷ vs) z = (omega arith, all vs z)
insert_by_key-by_kind bin t ls bs us e hl hb hu =
    let one_key : key t ≡ 1 = rw e in
    insert_by_key-append t ls (bs ++ us) (All-map (λ u h. omega arith) ls hl)
    ∙ rw (
        insert_by_key-front t (bs ++ us) (
          All-append (λ u. key t ≤ key u) bs us (All-map (λ u h. omega arith) bs hb)
            (All-map (λ u h. omega arith) us hu)))
insert_by_key-by_kind unspecified t ls bs us e hl hb hu =
    let two_key : key t ≡ 2 = rw e in
    insert_by_key-append t ls (bs ++ us) (All-map (λ u h. omega arith) ls hl)
    ∙ rw (
      insert_by_key-append t bs us (All-map (λ u h. omega arith) bs hb),
      insert_by_key-front t us (All-map (λ u h. omega arith) us hu),
    )

-- Sorting the targets of a package by their kind gives its libraries, then its binaries, then the
-- rest, each in the order in which the package lists them.
pub sort_by_key-eq-by_kind : (ts : List Target) → sort_by_key ts ≡ by_kind ts
unfolding sort_by_key
sort_by_key-eq-by_kind [] = refl
sort_by_key-eq-by_kind (t ∷ ts) = rw (sort_by_key-eq-by_kind ts) (cases (kind_of t) refl)
  where
    cases : (k : TargetKind) → kind_of t ≡ k → insert_by_key t (by_kind ts) ≡ by_kind (t ∷ ts)
    cases library e = rw (
      insert_by_key-by_kind library t (of_key 0 ts) (of_key 1 ts) (of_key 2 ts) e (All-of_key 0 ts)
          (All-of_key 1 ts) (All-of_key 2 ts),
      e,
    )
    cases bin e = rw (
      insert_by_key-by_kind bin t (of_key 0 ts) (of_key 1 ts) (of_key 2 ts) e (All-of_key 0 ts)
          (All-of_key 1 ts) (All-of_key 2 ts),
      e,
    )
    cases unspecified e = rw (
      insert_by_key-by_kind unspecified t (of_key 0 ts) (of_key 1 ts) (of_key 2 ts) e
          (All-of_key 0 ts) (All-of_key 1 ts) (All-of_key 2 ts),
      e,
    )
