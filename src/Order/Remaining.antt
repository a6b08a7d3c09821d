-- ===== src/Order/Remaining.antt =====
-- The edges that are left while blocks get done, and what an order of the blocks is.
use mathlib.Core.List.{append-nil, append_assoc}
use rul_checker.Prelude.{
  ℕ, zero, suc, ◌+◌, ◌<◌, ◌≡◌, refl, sym, ap, ◌∙◌, List, [], ◌∷◌, ◌++◌, some, get_elem?, arith,
  if◌then◌else◌, ◌==◌,
}
use rul_checker.Order.{Edges}
use rul_checker.Order.Edges.{count}
use rul_checker.Order.Counts.{count-append}

-- The edges into `v` from the blocks that are not done, among the blocks from `block` on.
abbrev pub remaining : ℕ → List ℕ → ℕ → Edges → ℕ
remaining v done block [] = 0
remaining v done block (vs ∷ es) =
    let rest = remaining v done (suc block) es in
    if count block done == 0 then count v vs + rest else rest

-- Each block stands after all blocks with an edge to it.
abbrev pub IsOrdered : Edges → List ℕ → List ℕ → Type 0
IsOrdered e done [] = Unit
IsOrdered e done (v ∷ vs) = (remaining v done 0 e ≡ 0) × IsOrdered e (done ++ v ∷ []) vs

pub IsOrdered-snoc :
    (e : Edges) (done t : List ℕ) (v : ℕ)
    → IsOrdered e done t
    → remaining v (done ++ t) 0 e ≡ 0
    → IsOrdered e done (t ++ v ∷ [])
IsOrdered-snoc e done [] v h z = (ap (λ d. remaining v d 0 e) (sym (append-nil done)) ∙ z, tt)
IsOrdered-snoc e done (w ∷ t) v h z = (
  h.0,
  IsOrdered-snoc e (done ++ w ∷ []) t v h.1
      (ap (λ d. remaining v d 0 e) (append_assoc done (w ∷ []) t) ∙ z),
)

-- A block before the range does not matter.
remaining-past :
    (v top : ℕ) (done : List ℕ) (block : ℕ) (es : Edges)
    → top < block
    → remaining v (done ++ top ∷ []) block es ≡ remaining v done block es
remaining-past v top done block [] h = refl
remaining-past v top done block (vs ∷ es) h = ground (
  arith,
  remaining-past v top done (suc block) es (omega arith),
  count-append block done (top ∷ []),
)

-- A block that gets done takes its own edges away.
pub remaining-done :
    (v k top : ℕ) (done : List ℕ) (block : ℕ) (es : Edges) {vs : List ℕ}
    → block + k ≡ top
    → get_elem? es k ≡ some vs
    → count top done ≡ 0
    → remaining v done block es ≡ count v vs + remaining v (done ++ top ∷ []) block es
remaining-done v k top done block [] e h z = cc
remaining-done v zero top done block (ws ∷ es) {vs} e h z =
    let same : ws ≡ vs = ground arith in
    let eq : block ≡ top = omega arith in
    let absent : count block done ≡ 0 = ap (λ b. count b done) eq ∙ z in
    let past = remaining-past v top done (suc block) es (omega arith) in
    let here = count-append block done (top ∷ []) in
    rw (sym same) (ground (arith, past, here, absent))
remaining-done v (suc k) top done block (ws ∷ es) e h z =
    let later = remaining-done v k top done (suc block) es (omega arith) h z in
    let here = count-append block done (top ∷ []) in ground (arith, later, here)
