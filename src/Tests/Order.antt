-- ===== src/Tests/Order.antt =====
-- The edges of a loop: 0 to 1, 1 to 2 and 3, 2 to 1.
use rul_checker.Prelude.{All, ◌<◌, ◌≤◌, ℕ, ◌≡◌, refl, List, [], ◌∷◌, some, get_elem?, arith, length}
use rul_checker.Run.{ret}
use rul_checker.Rustc.Mir.{BasicBlockData, TerminatorKind, goto, switch_int, return}
use rul_checker.Order.{Graph, targets, new_graph, collect_edges, order}
use rul_checker.Order.Topo.{order-IsOrdered}
use rul_checker.Order.Remaining.{IsOrdered}
use rul_checker.Order.Edges.{IsClosed, count, successors, predecessors, collect_edges-predecessors}

abbrev block : TerminatorKind ℕ → BasicBlockData ℕ
block t = record { statements = []; terminator = t }

abbrev cycle : List (BasicBlockData ℕ)
cycle = block (goto 1) ∷ block (switch_int (2 ∷ 3 ∷ [])) ∷ block (goto 1) ∷ block return ∷ []

cycle-IsClosed : IsClosed 4 cycle
unfolding targets
cycle-IsClosed =
    ((omega arith, tt), ((omega arith, (omega arith, tt)), ((omega arith, tt), (tt, tt))))

collect_edges-predecessors_example :
    (g : Graph) × (lev : List ℕ) × (collect_edges cycle ≡ ret (g, lev))
    × (get_elem? g.pre 1 ≡ some (predecessors 1 0 cycle))
    × (get_elem? lev 1 ≡ some (length (predecessors 1 0 cycle)))
collect_edges-predecessors_example = collect_edges-predecessors cycle cycle-IsClosed 1 (omega arith)

predecessors_of_1 : predecessors 1 0 cycle ≡ 0 ∷ 2 ∷ []
unfolding targets
predecessors_of_1 = refl

abbrev diamond : List (BasicBlockData ℕ)
diamond = block (switch_int (1 ∷ 2 ∷ [])) ∷ block (goto 3) ∷ block (goto 3) ∷ block return ∷ []

-- Both branches come before the block where they join, the later one first.
diamond-order :
    order diamond
    ≡ ret (record {
      e = (1 ∷ 2 ∷ []) ∷ (3 ∷ []) ∷ (3 ∷ []) ∷ [] ∷ [];
      pre = [] ∷ (0 ∷ []) ∷ (0 ∷ []) ∷ (1 ∷ 2 ∷ []) ∷ [];
      topo = 0 ∷ 2 ∷ 1 ∷ 3 ∷ [];
    })
unfolding order targets new_graph
diamond-order = refl

diamond-IsClosed : IsClosed 4 diamond
unfolding targets
diamond-IsClosed =
    ((omega arith, (omega arith, tt)), ((omega arith, tt), ((omega arith, tt), (tt, tt))))

diamond_entry : predecessors 0 0 diamond ≡ []
unfolding targets
diamond_entry = refl

order-IsOrdered_example :
    (g : Graph) × (order diamond ≡ ret g)
    × (g.e ≡ successors diamond)
    × IsOrdered (successors diamond) [] g.topo
    × All (λ v. v < 4) g.topo
    × ((x : ℕ) → count x g.topo ≤ 1)
order-IsOrdered_example = order-IsOrdered diamond diamond-IsClosed (omega arith) diamond_entry
