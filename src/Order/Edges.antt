-- ===== src/Order/Edges.antt =====
-- The predecessors and levels that `collect_edges` of src/analysis/flow_analysis/order.rs collects.
use mathlib.Core.List.{append-nil, append_assoc}
use rul_checker.Prelude.{
  take, map, ◌≤◌, ℕ, zero, suc, ◌+◌, ◌<◌, ◌≡◌, ◌≢◌, refl, sym, ap, subst, ◌∙◌, List, [], ◌∷◌, ◌++◌,
  some, get_elem?, set, length, replicate, arith, All, All-map, if◌then◌else◌, ◌==◌, Bool-cases,
  inl, inr, length-set, length-append, length-replicate, get_elem?-set_self, get_elem?-set_ne,
}
use rul_checker.Run.{ret}
use rul_checker.Rustc.Mir.{BasicBlockData}
use rul_checker.Order.{Edges, Graph, new_graph, targets, count_edges, collect_loop, collect_edges}

-- How often the block stands in a list.
abbrev pub count : ℕ → List ℕ → ℕ
count v [] = 0
count v (w ∷ ws) = let rest = count v ws in if w == v then suc rest else rest

-- The predecessors of a block among the blocks from `block` on: each as often as it has the edge.
abbrev pub predecessors : {T : Type 0} → ℕ → ℕ → List (BasicBlockData T) → List ℕ
predecessors v block [] = []
predecessors v block (b ∷ bs) =
    replicate (count v (targets b.terminator)) block ++ predecessors v (suc block) bs

-- Every edge leads to a block of the body.
abbrev pub IsClosed : {T : Type 0} → ℕ → List (BasicBlockData T) → Type 0
IsClosed n bbs = All (λ b. All (λ w. w < n) (targets b.terminator)) bbs

pub get_elem?-lt :
    {A : Type 0} (xs : List A) (i : ℕ) → i < length xs → (y : A) × (get_elem? xs i ≡ some y)
get_elem?-lt [] i h = absurd (omega arith)
get_elem?-lt (x ∷ xs) zero h = (x, refl)
get_elem?-lt (x ∷ xs) (suc i) h = get_elem?-lt xs i (omega arith)

-- The entry of each block `v`, with its predecessors and its level, grew by those of `vs`.
abbrev Grown : ℕ → List ℕ → List ℕ × Edges → List ℕ × Edges → Type 0
Grown block vs (lev, pre) (lev', pre') =
    (v n : ℕ) (ps : List ℕ)
    → get_elem? lev v ≡ some n
    → get_elem? pre v ≡ some ps
    → (get_elem? lev' v ≡ some (n + count v vs))
      × (get_elem? pre' v ≡ some (ps ++ replicate (count v vs) block))

count_edges-grows :
    (block : ℕ) (vs : List ℕ) (lev : List ℕ) (pre : Edges)
    → All (λ w. w < length lev) vs
    → length pre ≡ length lev
    → (lev' : List ℕ) × (pre' : Edges) × (count_edges block vs (lev, pre) ≡ ret (lev', pre'))
      × (length lev' ≡ length lev)
      × (length pre' ≡ length lev)
      × Grown block vs (lev, pre) (lev', pre')
unfolding count_edges
count_edges-grows block [] lev pre h e = (
  lev,
  pre,
  refl,
  refl,
  e,
  λ v n ps a b. (a ∙ ap some (omega arith), b ∙ ap some (sym (append-nil ps))),
)
count_edges-grows block (w ∷ ws) lev pre (here, h) e =
    let (n, at_n) = get_elem?-lt lev w here in
    let (ps, at_ps) = get_elem?-lt pre w (omega arith) in
    let lev1 = set lev w (n + 1) in
    let pre1 = set pre w (ps ++ block ∷ []) in
    let size = length-set lev w (n + 1) in
    let size' = length-set pre w (ps ++ block ∷ []) in
    let (lev', pre', run, len', len'', grown) =
      count_edges-grows block ws lev1 pre1 (All-map (λ v k. omega (arith, size)) ws h)
        (omega (arith, size, size')) in
    (
      lev',
      pre',
      ground arith,
      len' ∙ size,
      len'' ∙ size,
      λ v m qs a b. elim (Bool-cases (w == v)) [
        | inl same ↦
            let eq : w ≡ v = ground arith in
            let (now_n, now_ps) =
              grown v (n + 1) (ps ++ block ∷ [])
                (ap (get_elem? lev1) (sym eq) ∙ get_elem?-set_self lev w (n + 1) here)
                (ap (get_elem? pre1) (sym eq)
                  ∙ get_elem?-set_self pre w (ps ++ block ∷ []) (omega arith)) in
            let m_is : n ≡ m = ground arith in
            let qs_is : ps ≡ qs = ground arith in
            rw same (
              now_n ∙ ap some (omega arith),
              now_ps
                  ∙ ap some (
                      append_assoc ps (block ∷ []) (replicate (count v ws) block)
                      ∙ ap (λ xs. xs ++ block ∷ replicate (count v ws) block) qs_is),
            )
        | inr differ ↦
            let ne : w ≢ v = λ p. absurd (ground arith) in
            rw differ (
              grown v m qs (get_elem?-set_ne lev {i = w} {j = v} (n + 1) ne ∙ a)
                (get_elem?-set_ne pre {i = w} {j = v} (ps ++ block ∷ []) ne ∙ b))
      ],
    )

-- The edges of a body.
abbrev pub successors : {T : Type 0} → List (BasicBlockData T) → Edges
successors bbs = map (λ b. targets b.terminator) bbs

take-length : {A : Type 0} (xs : List A) (n : ℕ) → length xs ≤ n → take n xs ≡ xs
take-length [] zero h = refl
take-length [] (suc n) h = refl
take-length (x ∷ xs) zero h = absurd (omega arith)
take-length (x ∷ xs) (suc n) h = ap (◌∷◌ x) (take-length xs n (omega arith))

take-set :
    {A : Type 0} (xs : List A) (i : ℕ) (v : A)
    → i < length xs
    → take (suc i) (set xs i v) ≡ take i xs ++ v ∷ []
take-set [] i v h = absurd (omega arith)
take-set (x ∷ xs) zero v h = refl
take-set (x ∷ xs) (suc i) v h = ap (◌∷◌ x) (take-set xs i v (omega arith))

-- The loop over the blocks from `block` on: their edges are stored, and all entries grow.
collect_loop-grows :
    {T : Type 0} (block : ℕ) (bbs : List (BasicBlockData T)) (g : Graph) (lev : List ℕ)
    → IsClosed (length lev) bbs
    → length g.pre ≡ length lev
    → length g.e ≡ length lev
    → block + length bbs ≡ length lev
    → (g' : Graph) × (lev' : List ℕ) × (collect_loop block bbs g lev ≡ ret (g', lev'))
      × (length lev' ≡ length lev)
      × (g'.topo ≡ g.topo)
      × (g'.e ≡ take block g.e ++ successors bbs)
      × ((v n : ℕ) (ps : List ℕ)
          → get_elem? lev v ≡ some n
          → get_elem? g.pre v ≡ some ps
          → (get_elem? lev' v ≡ some (n + length (predecessors v block bbs)))
            × (get_elem? g'.pre v ≡ some (ps ++ predecessors v block bbs)))
unfolding collect_loop
collect_loop-grows block [] g lev h e k size = (
  g,
  lev,
  refl,
  refl,
  refl,
  sym (append-nil (take block g.e) ∙ take-length g.e block (omega arith)),
  λ v n ps a b. (a ∙ ap some (omega arith), b ∙ ap some (sym (append-nil ps))),
)
collect_loop-grows block (b ∷ bs) g lev (here, h) e k size =
    let result = targets b.terminator in
    let (lev1, pre1, run, len1, len2, grown) = count_edges-grows block result lev g.pre here e in
    let (old, at_old) = get_elem?-lt g.e block (omega arith) in
    let g1 : Graph = record { e = set g.e block result; pre = pre1; topo = g.topo } in
    let closed =
      All-map
        (λ b'. All-map (λ w (p : w < length lev). omega (arith, len1)) (targets b'.terminator)) bs
        h in
    let (g', lev', run', len', topo', e', rest) =
      collect_loop-grows (suc block) bs g1 lev1 closed (len2 ∙ sym len1)
        (length-set g.e block result ∙ k ∙ sym len1) (omega (arith, size, len1)) in
    (
      g',
      lev',
      ground arith,
      len' ∙ len1,
      topo',
      e'
          ∙ ap (λ xs. xs ++ successors bs) (take-set g.e block result (omega arith))
          ∙ append_assoc (take block g.e) (result ∷ []) (successors bs),
      λ v n ps a c.
          let (a1, c1) = grown v n ps a c in
          let (a2, c2) = rest v _ _ a1 c1 in
          let more = replicate (count v result) block in
          let later = predecessors v (suc block) bs in
          (
            a2
                ∙ ap some (
                    omega
                      (arith, length-append more later, length-replicate (count v result) block)),
            c2 ∙ ap some (append_assoc ps more later),
          ),
    )

get_elem?-replicate : {A : Type 0} (n v : ℕ) (a : A) → v < n → get_elem? (replicate n a) v ≡ some a
get_elem?-replicate zero v a h = absurd (omega arith)
get_elem?-replicate (suc n) zero a h = refl
get_elem?-replicate (suc n) (suc v) a h = get_elem?-replicate n v a (omega arith)

-- All that `collect_edges` returns.
pub collected :
    {T : Type 0} (bbs : List (BasicBlockData T))
    → IsClosed (length bbs) bbs
    → (g : Graph) × (lev : List ℕ) × (collect_edges bbs ≡ ret (g, lev))
      × (length lev ≡ length bbs)
      × (g.topo ≡ [])
      × (g.e ≡ successors bbs)
      × ((v : ℕ)
          → v < length bbs
          → (get_elem? g.pre v ≡ some (predecessors v 0 bbs))
            × (get_elem? lev v ≡ some (length (predecessors v 0 bbs))))
unfolding collect_edges new_graph
collected bbs closed =
    let size = length-replicate (length bbs) 0 in
    let none_yet = length-replicate (length bbs) [] in
    let (g, lev, run, len, topo, e, grown) =
      collect_loop-grows 0 bbs (new_graph (length bbs)) (replicate (length bbs) 0)
        (subst (λ (n : ℕ). IsClosed n bbs) (sym size) closed) (none_yet ∙ sym size)
        (none_yet ∙ sym size) (omega (arith, size)) in
    (
      g,
      lev,
      run,
      len ∙ size,
      topo,
      e,
      λ v h.
          let (level, pre) =
            grown v 0 [] (get_elem?-replicate (length bbs) v 0 h)
              (get_elem?-replicate (length bbs) v [] h) in
          (pre, level ∙ ap some (omega arith)),
    )

-- Where every edge leads to a block, the collection returns; of each block it gives the predecessors
-- in the order of the blocks, each as often as it has the edge, and their number as its level.
pub collect_edges-predecessors :
    {T : Type 0} (bbs : List (BasicBlockData T))
    → IsClosed (length bbs) bbs
    → (v : ℕ) → v < length bbs
    → (g : Graph) × (lev : List ℕ) × (collect_edges bbs ≡ ret (g, lev))
      × (get_elem? g.pre v ≡ some (predecessors v 0 bbs))
      × (get_elem? lev v ≡ some (length (predecessors v 0 bbs)))
collect_edges-predecessors bbs closed v h =
    let (g, lev, run, len, topo, e, facts) = collected bbs closed in
    let (pre, level) = facts v h in (g, lev, run, pre, level)
