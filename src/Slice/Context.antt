-- ===== src/Slice/Context.antt =====
-- The context of a body, src/analysis/flow_analysis.rs: for each block, the five vectors before it
-- (`i`) and after it (`o`).
pub mod Trips
use rul_checker.Prelude.{ℕ, List, [], ◌∷◌, replicate, none, set, length, if◌then◌else◌}
use rul_checker.Run.{Run, ret, ◌>>=◌, index}
use rul_checker.State.{write}
use rul_checker.Ownership.{OwnershipLayout}
use rul_checker.TypeVisitor.{TyWithIndex}
use rul_checker.Slice.{IcxSlice, IntroVar, declared, Taint, is_untainted, taint_insert_all}

pub record InOutPair (A : Type 0) : Type 0 where
  pub i : List A
  pub o : List A

abbrev pub new_pair : {A : Type 0} → A → ℕ → InOutPair A
new_pair d n = record { i = replicate n d; o = replicate n d }

abbrev pub IoPairForGraph : Type 0 → Type 0
IoPairForGraph A = List (InOutPair A)

-- `IOPairForGraph::new(b_len, v_len)`, at the default of the element type.
abbrev pub new_graph : {A : Type 0} → A → ℕ → ℕ → IoPairForGraph A
new_graph d b_len v_len = replicate b_len (new_pair d v_len)

pub record IntroFlowContext (T B : Type 0) : Type 0 where
  pub taint : IoPairForGraph (Taint T)
  pub var : IoPairForGraph (IntroVar B)
  pub len : IoPairForGraph ℕ
  pub ty : IoPairForGraph (TyWithIndex T)
  pub layout : IoPairForGraph OwnershipLayout

-- `*g[to].get_i_mut() = g[from].get_o_mut().clone()`
pub derive_pair : {A : Type 0} → IoPairForGraph A → ℕ → ℕ → Run (IoPairForGraph A)
derive_pair g from to =
    index g from >>= λ p. index g to >>= λ q. write g to (record { i = p.o; o = q.o })

-- `*g[to].get_o_mut() = v`
pub store_out : {A : Type 0} → IoPairForGraph A → List A → ℕ → Run (IoPairForGraph A)
store_out g v to = index g to >>= λ q. write g to (record { i = q.i; o = v })

module _ {T B : Type 0} where
  unfoldable pub new_context : ℕ → ℕ → IntroFlowContext T B
  new_context b_len v_len = record {
    taint = new_graph [] b_len v_len;
    var = new_graph declared b_len v_len;
    len = new_graph 0 b_len v_len;
    ty = new_graph none b_len v_len;
    layout = new_graph [] b_len v_len;
  }

  unfoldable pub derive_from_pre_node : IntroFlowContext T B → ℕ → ℕ → Run (IntroFlowContext T B)
  unfolding derive_pair
  derive_from_pre_node icx from to = derive_pair icx.taint from to >>= λ a.
      derive_pair icx.var from to >>= λ b. derive_pair icx.len from to >>= λ c.
      derive_pair icx.ty from to >>= λ d. derive_pair icx.layout from to >>= λ e.
      ret (record { taint = a; var = b; len = c; ty = d; layout = e })

  unfoldable pub derive_from_icx_slice :
      IntroFlowContext T B → IcxSlice T B → ℕ → Run (IntroFlowContext T B)
  unfolding store_out
  derive_from_icx_slice icx from to = store_out icx.taint from.taint to >>= λ a.
      store_out icx.var from.var to >>= λ b. store_out icx.len from.len to >>= λ c.
      store_out icx.ty from.ty to >>= λ d. store_out icx.layout from.layout to >>= λ e.
      ret (record { taint = a; var = b; len = c; ty = d; layout = e })

  -- `IcxSliceFroBlock::new_in` and `new_out`
  unfoldable pub new_in : IntroFlowContext T B → ℕ → Run (IcxSlice T B)
  new_in icx idx = index icx.taint idx >>= λ a. index icx.var idx >>= λ b.
      index icx.len idx >>= λ c. index icx.ty idx >>= λ d. index icx.layout idx >>= λ e.
      ret (record { taint = a.i; var = b.i; len = c.i; ty = d.i; layout = e.i })

  unfoldable pub new_out : IntroFlowContext T B → ℕ → Run (IcxSlice T B)
  new_out icx idx = index icx.taint idx >>= λ a. index icx.var idx >>= λ b.
      index icx.len idx >>= λ c. index icx.ty idx >>= λ d. index icx.layout idx >>= λ e.
      ret (record { taint = a.o; var = b.o; len = c.o; ty = d.o; layout = e.o })

-- `self.taint_merge(another, u)`
unfoldable pub taint_merge :
    {T B : Type 0} → Discrete T → IcxSlice T B → IcxSlice T B → ℕ → Run (IcxSlice T B)
taint_merge d self another u = index another.taint u >>= λ at.
    if is_untainted at
    then ret self
    else (index self.taint u >>= λ st.
        write self.taint u (if is_untainted st then at else taint_insert_all d st at) >>= λ ts.
        ret (record self { taint = ts }))
