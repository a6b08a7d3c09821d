-- ===== src/Order.antt =====
-- The order of the blocks: `Graph` of src/analysis/flow_analysis.rs and
-- src/analysis/flow_analysis/order.rs.
pub mod Edges
pub mod Counts
pub mod Relax
pub mod Remaining
pub mod Topo
use rul_checker.Prelude.{
  ℕ, zero, suc, ◌+◌, ◌-◌, Bool, true, false, List, [], ◌∷◌, ◌++◌, Option, none, some, replicate,
  length, if◌then◌else◌, ◌==◌, ltb, leb, get_elem?, set,
}
use rul_checker.Run.{Run, ret, panic, out_of_fuel, ◌>>=◌, index}
use rul_checker.State.{write}
use rul_checker.Rustc.Mir.{
  BasicBlockData, TerminatorKind, goto, switch_int, resume, abort, return, unreachable, drop,
  drop_and_replace, assert, yield, generator_drop, false_edge, false_unwind, inline_asm, call,
}

abbrev pub Edges : Type 0
Edges = List (List ℕ)

pub record Graph : Type 0 where
  pub e : Edges
  pub pre : Edges
  pub topo : List ℕ

unfoldable pub new_graph : ℕ → Graph
new_graph n = record { e = replicate n []; pre = replicate n []; topo = [] }

-- The successors of a block; the unwind edges are not collected.
unfoldable pub targets : {T : Type 0} → TerminatorKind T → List ℕ
targets (goto target) = target ∷ []
targets (switch_int ts) = ts
targets resume = []
targets abort = []
targets return = []
targets unreachable = []
targets (drop place target) = target ∷ []
targets drop_and_replace = []
targets (assert target) = target ∷ []
targets yield = []
targets generator_drop = []
targets false_edge = []
targets false_unwind = []
targets inline_asm = []
targets (call func args dest none) = []
targets (call func args dest (some t)) = t ∷ []

-- `lev[index] += 1; pre[index].push(block)` for each successor.
unfoldable pub count_edges : ℕ → List ℕ → List ℕ × Edges → Run (List ℕ × Edges)
count_edges block [] s = ret s
count_edges block (v ∷ vs) (lev, pre) = index lev v >>= λ n. index pre v >>= λ ps.
    write lev v (n + 1) >>= λ lev'.
    write pre v (ps ++ block ∷ []) >>= λ pre'. count_edges block vs (lev', pre')

-- The loop over the blocks, from `block` on.
unfoldable pub collect_loop :
    {T : Type 0} → ℕ → List (BasicBlockData T) → Graph → List ℕ → Run (Graph × List ℕ)
unfolding count_edges
collect_loop block [] g lev = ret (g, lev)
collect_loop block (b ∷ bs) g lev =
    let result = targets b.terminator in
    count_edges block result (lev, g.pre) >>= λ r. write g.e block result >>= λ e'.
    collect_loop (suc block) bs (record { e = e'; pre = r.1; topo = g.topo }) r.0

-- `path.collect_edges(&mut lev)` on a fresh graph and zero levels.
unfoldable pub collect_edges : {T : Type 0} → List (BasicBlockData T) → Run (Graph × List ℕ)
unfolding collect_loop
collect_edges bbs = collect_loop 0 bbs (new_graph (length bbs)) (replicate (length bbs) 0)

-- A `BinaryHeap<usize>` as a descending list: `push` inserts, `pop` takes the greatest.
unfoldable pub push : ℕ → List ℕ → List ℕ
push v [] = v ∷ []
push v (q ∷ qs) = if leb q v then v ∷ q ∷ qs else q ∷ push v qs

-- The loop over the edges of `top`: a level falls by one (below zero it panics), and a block whose
-- level is then zero is queued.
unfoldable pub relax : List ℕ → List ℕ × List ℕ → Run (List ℕ × List ℕ)
unfolding push
relax [] s = ret s
relax (v ∷ vs) (lev, q) = index lev v >>= λ n. elim n [
  | zero ↦ panic
  | suc k ↦ write lev v k >>= λ lev'. relax vs (lev', if k == 0 then push v q else q)
]

unfoldable pub topo_loop : ℕ → Edges → List ℕ → List ℕ → List ℕ → Run (List ℕ)
unfolding relax
topo_loop fuel e lev [] topo = ret topo
topo_loop zero e lev (top ∷ q) topo = out_of_fuel
topo_loop (suc fuel) e lev (top ∷ q) topo =
    index e top >>= λ vs. relax vs (lev, q) >>= λ r. topo_loop fuel e r.0 r.1 (topo ++ top ∷ [])

unfoldable pub topo_order : ℕ → Graph → List ℕ → Run Graph
unfolding topo_loop
topo_order fuel g lev =
    topo_loop fuel g.e lev (0 ∷ []) g.topo >>= λ topo. ret (record g { topo = topo })

-- The body of the loop of `FlowAnalysis::order`: as many rounds as there are blocks.
unfoldable pub order : {T : Type 0} → List (BasicBlockData T) → Run Graph
unfolding collect_edges topo_order
order bbs = collect_edges bbs >>= λ r. topo_order (length bbs) r.0 r.1
