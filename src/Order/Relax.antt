-- ===== src/Order/Relax.antt =====
-- One round of `topo_order`: the edges of a block that is done are taken off the levels.
use rul_checker.Prelude.{
  ℕ, suc, ◌+◌, ◌≤◌, ◌<◌, ◌≡◌, refl, sym, ap, ◌∙◌, List, [], ◌∷◌, some, get_elem?, set, length,
  arith, All, All-map, if◌then◌else◌, ◌==◌, leb, Bool-cases, inl, inr, length-set,
  get_elem?-set_self, get_elem?-set_ne,
}
use rul_checker.Run.{ret}
use rul_checker.Order.{relax, push}
use rul_checker.Order.Edges.{count}
use rul_checker.Order.Counts.{count-push, count-none}

-- Queue and finished blocks together have no block twice.
abbrev pub IsDistinct : List ℕ → List ℕ → Type 0
IsDistinct q t = (x : ℕ) → count x q + count x t ≤ 1

-- A block of the body whose level is zero.
abbrev pub IsZero : ℕ → (ℕ → ℕ) → ℕ → Type 0
IsZero n level x = (x < n) × (level x ≡ 0)

All-push : (P : ℕ → Type 0) (v : ℕ) (q : List ℕ) → P v → All P q → All P (push v q)
unfolding push
All-push P v [] h k = (h, tt)
All-push P v (w ∷ q) h k = elim (Bool-cases (leb w v)) [
  | inl below ↦ rw below (h, k)
  | inr above ↦ rw above (k.0, All-push P v q h k.1)
]

-- The levels count the edges of `vs` and the rest `level`; after the round they are the rest.
pub relax-ret :
    (vs lev q t : List ℕ) (level : ℕ → ℕ)
    → All (λ v. v < length lev) vs
    → ((v : ℕ) → v < length lev → get_elem? lev v ≡ some (count v vs + level v))
    → All (IsZero (length lev) (λ v. count v vs + level v)) q
    → All (IsZero (length lev) (λ v. count v vs + level v)) t
    → IsDistinct q t
    → (lev' q' : List ℕ) × (relax vs (lev, q) ≡ ret (lev', q'))
      × (length lev' ≡ length lev)
      × ((v : ℕ) → v < length lev → get_elem? lev' v ≡ some (level v))
      × All (IsZero (length lev) level) q'
      × IsDistinct q' t
unfolding relax
relax-ret [] lev q t level closed levels zq zt d = (
  lev,
  q,
  refl,
  refl,
  λ v h. levels v h ∙ ap some (omega arith),
  All-map (λ x z. (z.0, omega (arith, z.1))) q zq,
  d,
)
relax-ret (v ∷ vs) lev q t level closed levels zq zt d =
    let k = count v vs + level v in
    let at_v : get_elem? lev v ≡ some (suc k) = ground (arith, levels v closed.0) in
    let lev1 = set lev v k in
    let size = length-set lev v k in
    let q1 = if k == 0 then push v q else q in
    let fewer : (x : ℕ)
        → IsZero (length lev) (λ w. count w (v ∷ vs) + level w) x
        → IsZero (length lev) (λ w. count w vs + level w) x =
      λ x h. (h.0, ground (arith, h.1)) in
    let absent : (xs : List ℕ)
        → All (IsZero (length lev) (λ w. count w (v ∷ vs) + level w)) xs
        → count v xs ≡ 0 =
      λ xs h. count-none _ v xs h (λ z. absurd (ground (arith, z.1))) in
    let zeros : All (IsZero (length lev) (λ w. count w vs + level w)) q1 =
      elim (Bool-cases (k == 0)) [
        | inl last ↦ rw last (All-push _ v q (closed.0, ground arith) (All-map fewer q zq))
        | inr more ↦ rw more (All-map fewer q zq)
      ] in
    let distinct : IsDistinct q1 t = λ x. elim (Bool-cases (k == 0)) [
      | inl last ↦ rw last (ground (arith, count-push v x q, d x, absent q zq, absent t zt))
      | inr more ↦ rw more (d x)
    ] in
    let now : (w : ℕ) → w < length lev → get_elem? lev1 w ≡ some (count w vs + level w) = λ w h.
      elim (Bool-cases (v == w)) [
        | inl same ↦
            let eq : v ≡ w = ground arith in rw (sym eq) (get_elem?-set_self lev v k closed.0)
        | inr differ ↦
            get_elem?-set_ne lev {i = v} {j = w} k (λ e. absurd (ground arith))
            ∙ levels w h
            ∙ rw differ refl
      ] in
    let (lev', q', run, len, rest, zq', d') =
      relax-ret vs lev1 q1 t level (rw size closed.1) (rw size now) (rw size zeros)
        (rw size (All-map fewer t zt)) distinct in
    (lev', q', ground arith, len ∙ size, rw (sym size) rest, rw (sym size) zq', d')
