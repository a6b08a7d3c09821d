-- ===== src/Order/Topo.antt =====
-- The rounds of `topo_order`, src/analysis/flow_analysis/order.rs.
use rul_checker.Prelude.{
  ℕ, zero, suc, ◌+◌, ◌≤◌, ◌<◌, ◌≡◌, refl, sym, ap, subst, ◌∙◌, List, [], ◌∷◌, ◌++◌, some, get_elem?,
  length, arith, All, All-map, All-append, length-append, length-map, length-replicate, replicate,
}
use rul_checker.Run.{ret}
use rul_checker.Order.{Edges, relax, topo_loop, topo_order, Graph, order, targets}
use rul_checker.Rustc.Mir.{BasicBlockData}
use rul_checker.Order.Edges.{count, get_elem?-lt, predecessors, successors, IsClosed, collected}
use rul_checker.Order.Counts.{count-append, length-le_of_distinct}
use rul_checker.Order.Relax.{IsDistinct, IsZero, relax-ret}
use rul_checker.Order.Remaining.{remaining, IsOrdered, IsOrdered-snoc, remaining-done}

-- What holds between two rounds, with `n` blocks.
record Round (n : ℕ) (e : Edges) (lev q topo : List ℕ) : Type 0 where
  levels : (v : ℕ) → v < n → get_elem? lev v ≡ some (remaining v topo 0 e)
  lev_length : length lev ≡ n
  queued : All (IsZero n (λ v. remaining v topo 0 e)) q
  finished : All (IsZero n (λ v. remaining v topo 0 e)) topo
  distinct : IsDistinct q topo
  ordered : IsOrdered e [] topo

-- There is fuel left as long as a block is queued.
room :
    (n : ℕ) (e : Edges) (lev : List ℕ) (top : ℕ) (q topo : List ℕ)
    → Round n e lev (top ∷ q) topo
    → length topo < n
room n e lev top q topo r =
    length-le_of_distinct n (top ∷ topo) (r.queued.0.0, All-map (λ x z. z.0) topo r.finished)
      (λ x. ground (arith, r.distinct x))

-- One round.
round :
    (n : ℕ) (e : Edges) (lev : List ℕ) (top : ℕ) (q topo vs : List ℕ)
    → get_elem? e top ≡ some vs
    → All (λ v. v < n) vs
    → Round n e lev (top ∷ q) topo
    → (lev' q' : List ℕ) × (relax vs (lev, q) ≡ ret (lev', q'))
      × Round n e lev' q' (topo ++ top ∷ [])
round n e lev top q topo vs at_top closed r =
    let fresh : count top topo ≡ 0 = ground (arith, r.distinct top) in
    let next = λ (v : ℕ). remaining v (topo ++ top ∷ []) 0 e in
    let done : (v : ℕ) → remaining v topo 0 e ≡ count v vs + next v =
      λ v. remaining-done v top top topo 0 e (omega arith) at_top fresh in
    let still : (x : ℕ)
        → IsZero n (λ v. remaining v topo 0 e) x
        → IsZero n (λ v. count v vs + next v) x =
      λ x z. (z.0, sym (done x) ∙ z.1) in
    let zeros =
      All-append (IsZero n (λ v. count v vs + next v)) topo (top ∷ [])
        (All-map still topo r.finished) (still top r.queued.0, tt) in
    let here = λ (x : ℕ). count-append x topo (top ∷ []) in
    let (lev', q', run, len, levels', zq, d) =
      relax-ret vs lev q (topo ++ top ∷ []) next (rw r.lev_length closed)
        (rw r.lev_length (λ v h. r.levels v h ∙ ap some (done v)))
        (rw r.lev_length (All-map still q r.queued.1)) (rw r.lev_length zeros)
        (λ x. ground (arith, r.distinct x, here x)) in
    (
      lev',
      q',
      run,
      record {
        levels =
            subst (λ k. (v : ℕ) → v < k → get_elem? lev' v ≡ some (next v)) r.lev_length levels';
        lev_length = len ∙ r.lev_length;
        queued = subst (λ k. All (IsZero k next) q') r.lev_length zq;
        finished = All-map (λ x z. (z.0, omega (arith, z.1))) (topo ++ top ∷ []) zeros;
        distinct = d;
        ordered = IsOrdered-snoc e [] topo top r.ordered r.queued.0.1;
      },
    )

All-get_elem? :
    {A : Type 0} (P : A → Type 0) (xs : List A) (i : ℕ) {x : A}
    → All P xs
    → get_elem? xs i ≡ some x
    → P x
All-get_elem? P [] i h e = cc
All-get_elem? P (y ∷ xs) zero {x} h e = let same : y ≡ x = cc in subst P same h.0
All-get_elem? P (y ∷ xs) (suc i) h e = All-get_elem? P xs i h.1 e

topo_loop-ends :
    (fuel n : ℕ) (e : Edges) (lev q topo : List ℕ)
    → length e ≡ n
    → All (All (λ v. v < n)) e
    → n ≤ fuel + length topo
    → Round n e lev q topo
    → (order : List ℕ) × (topo_loop fuel e lev q topo ≡ ret order)
      × IsOrdered e [] order
      × All (λ v. v < n) order
      × ((x : ℕ) → count x order ≤ 1)
unfolding topo_loop
topo_loop-ends zero n e lev [] topo size closed enough r =
    (topo, refl, r.ordered, All-map (λ x z. z.0) topo r.finished, λ x. omega (arith, r.distinct x))
topo_loop-ends (suc fuel) n e lev [] topo size closed enough r =
    (topo, refl, r.ordered, All-map (λ x z. z.0) topo r.finished, λ x. omega (arith, r.distinct x))
topo_loop-ends zero n e lev (top ∷ q) topo size closed enough r =
    absurd (omega (arith, room n e lev top q topo r))
topo_loop-ends (suc fuel) n e lev (top ∷ q) topo size closed enough r =
    let (vs, at_top) = get_elem?-lt e top (omega (arith, r.queued.0.0)) in
    let (lev', q', run, r') =
      round n e lev top q topo vs at_top (All-get_elem? (All (λ v. v < n)) e top closed at_top) r in
    let longer = length-append topo (top ∷ []) in
    let (order, rest, sorted, below, once) =
      topo_loop-ends fuel n e lev' q' (topo ++ top ∷ []) size closed (omega (arith, longer)) r' in
    (order, ground arith, sorted, below, once)

remaining-predecessors :
    {T : Type 0} (v block : ℕ) (bbs : List (BasicBlockData T))
    → remaining v [] block (successors bbs) ≡ length (predecessors v block bbs)
remaining-predecessors v block [] = refl
remaining-predecessors v block (b ∷ bs) =
    let vs = targets b.terminator in
    let first = replicate (count v vs) block in
    omega (
      arith,
      remaining-predecessors v (suc block) bs,
      length-append first (predecessors v (suc block) bs),
      length-replicate (count v vs) block,
    )

All-successors :
    {T : Type 0} (n : ℕ) (bbs : List (BasicBlockData T))
    → IsClosed n bbs
    → All (All (λ v. v < n)) (successors bbs)
All-successors n [] h = tt
All-successors n (b ∷ bs) h = (h.0, All-successors n bs h.1)

-- Where every edge leads to a block and none to the first one, the order is computed: it has no block
-- twice, and each of its blocks stands after all blocks with an edge to it.
pub order-IsOrdered :
    {T : Type 0} (bbs : List (BasicBlockData T))
    → IsClosed (length bbs) bbs
    → 0 < length bbs
    → predecessors 0 0 bbs ≡ []
    → (g : Graph) × (order bbs ≡ ret g)
      × (g.e ≡ successors bbs)
      × IsOrdered (successors bbs) [] g.topo
      × All (λ v. v < length bbs) g.topo
      × ((x : ℕ) → count x g.topo ≤ 1)
unfolding order topo_order
order-IsOrdered bbs closed some_block entry =
    let (g, lev, run, len, topo, e, facts) = collected bbs closed in
    let level = λ (v : ℕ). remaining-predecessors v 0 bbs in
    let start : Round (length bbs) (successors bbs) lev (0 ∷ []) [] = record {
      levels = λ v h. (facts v h).1 ∙ ap some (sym (level v));
      lev_length = len;
      queued = ((some_block, level 0 ∙ ap length entry), tt);
      finished = tt;
      distinct = λ x. ground arith;
      ordered = tt;
    } in
    let (found, ends, sorted, below, once) =
      topo_loop-ends (length bbs) (length bbs) (successors bbs) lev (0 ∷ []) []
        (length-map bbs (λ b. targets b.terminator)) (All-successors (length bbs) bbs closed)
        (omega arith) start in
    (record g { topo = found }, ground arith, e, sorted, below, once)
