-- ===== src/Slice/Context/Trips.antt =====
-- Storing in the context of a body and reading back.
use rul_checker.Prelude.{
  ℕ, ◌≡◌, ◌≢◌, refl, List, some, get_elem?, set, arith, get_elem?-set-some, get_elem?-set_ne,
}
use rul_checker.Run.{ret}
use rul_checker.Ownership.{OwnershipLayout}
use rul_checker.TypeVisitor.{TyWithIndex}
use rul_checker.Slice.{IcxSlice, IntroVar, Taint}
use rul_checker.Slice.Context.{
  InOutPair, IoPairForGraph, IntroFlowContext, derive_pair, store_out, derive_from_pre_node,
  derive_from_icx_slice, new_in, new_out,
}

-- The five graphs have the block.
pub record Has {T B : Type 0} (icx : IntroFlowContext T B) (b : ℕ) : Type 0 where
  pub taint_pair : InOutPair (Taint T)
  pub has_taint : get_elem? icx.taint b ≡ some taint_pair
  pub var_pair : InOutPair (IntroVar B)
  pub has_var : get_elem? icx.var b ≡ some var_pair
  pub len_pair : InOutPair ℕ
  pub has_len : get_elem? icx.len b ≡ some len_pair
  pub ty_pair : InOutPair (TyWithIndex T)
  pub has_ty : get_elem? icx.ty b ≡ some ty_pair
  pub layout_pair : InOutPair OwnershipLayout
  pub has_layout : get_elem? icx.layout b ≡ some layout_pair

store_out-ret :
    {A : Type 0} (g : IoPairForGraph A) (v : List A) (to : ℕ) {q : InOutPair A}
    → get_elem? g to ≡ some q
    → store_out g v to ≡ ret (set g to (record { i = q.i; o = v }))
unfolding store_out
store_out-ret g v to h = ground arith

derive_pair-ret :
    {A : Type 0} (g : IoPairForGraph A) (from to : ℕ) {p q : InOutPair A}
    → get_elem? g from ≡ some p
    → get_elem? g to ≡ some q
    → derive_pair g from to ≡ ret (set g to (record { i = p.o; o = q.o }))
unfolding derive_pair
derive_pair-ret g from to h k = ground arith

module _ {T B : Type 0} where
  put : (icx : IntroFlowContext T B) → IcxSlice T B → (to : ℕ) → Has icx to → IntroFlowContext T B
  put icx sl to h = record {
    taint = set icx.taint to (record { i = h.taint_pair.i; o = sl.taint });
    var = set icx.var to (record { i = h.var_pair.i; o = sl.var });
    len = set icx.len to (record { i = h.len_pair.i; o = sl.len });
    ty = set icx.ty to (record { i = h.ty_pair.i; o = sl.ty });
    layout = set icx.layout to (record { i = h.layout_pair.i; o = sl.layout });
  }

  -- Storing a slice at a block of the context returns; read back, the block's outcome is the slice, its
  -- income is as before, and so is the outcome of any other block.
  pub derive_from_icx_slice-new_out :
      (icx : IntroFlowContext T B) (sl : IcxSlice T B) (to b : ℕ)
      → Has icx to
      → to ≢ b
      → (icx' : IntroFlowContext T B) × (derive_from_icx_slice icx sl to ≡ ret icx')
        × (new_out icx' to ≡ ret sl)
        × (new_in icx' to ≡ new_in icx to)
        × (new_out icx' b ≡ new_out icx b)
  unfolding derive_from_icx_slice new_out new_in put
  derive_from_icx_slice-new_out icx sl to b h apart = (
    put icx sl to h,
    ground (
      arith,
      store_out-ret icx.taint sl.taint to h.has_taint,
      store_out-ret icx.var sl.var to h.has_var,
      store_out-ret icx.len sl.len to h.has_len,
      store_out-ret icx.ty sl.ty to h.has_ty,
      store_out-ret icx.layout sl.layout to h.has_layout,
    ),
    ground (
      arith,
      get_elem?-set-some icx.taint to (record { i = h.taint_pair.i; o = sl.taint }) h.has_taint,
      get_elem?-set-some icx.var to (record { i = h.var_pair.i; o = sl.var }) h.has_var,
      get_elem?-set-some icx.len to (record { i = h.len_pair.i; o = sl.len }) h.has_len,
      get_elem?-set-some icx.ty to (record { i = h.ty_pair.i; o = sl.ty }) h.has_ty,
      get_elem?-set-some icx.layout to (record { i = h.layout_pair.i; o = sl.layout }) h.has_layout,
    ),
    ground (
      arith,
      get_elem?-set-some icx.taint to (record { i = h.taint_pair.i; o = sl.taint }) h.has_taint,
      get_elem?-set-some icx.var to (record { i = h.var_pair.i; o = sl.var }) h.has_var,
      get_elem?-set-some icx.len to (record { i = h.len_pair.i; o = sl.len }) h.has_len,
      get_elem?-set-some icx.ty to (record { i = h.ty_pair.i; o = sl.ty }) h.has_ty,
      get_elem?-set-some icx.layout to (record { i = h.layout_pair.i; o = sl.layout }) h.has_layout,
      h.has_taint,
      h.has_var,
      h.has_len,
      h.has_ty,
      h.has_layout,
    ),
    rw
        (
          get_elem?-set_ne icx.taint {i = to} {j = b} (record { i = h.taint_pair.i; o = sl.taint })
              apart,
          get_elem?-set_ne icx.var {i = to} {j = b} (record { i = h.var_pair.i; o = sl.var }) apart,
          get_elem?-set_ne icx.len {i = to} {j = b} (record { i = h.len_pair.i; o = sl.len }) apart,
          get_elem?-set_ne icx.ty {i = to} {j = b} (record { i = h.ty_pair.i; o = sl.ty }) apart,
          get_elem?-set_ne icx.layout {i = to} {j = b}
              (record { i = h.layout_pair.i; o = sl.layout }) apart,
        )
        refl,
  )

  passed :
      (icx : IntroFlowContext T B) (to : ℕ) {from : ℕ}
      → Has icx from
      → Has icx to
      → IntroFlowContext T B
  passed icx to h k = record {
    taint = set icx.taint to (record { i = h.taint_pair.o; o = k.taint_pair.o });
    var = set icx.var to (record { i = h.var_pair.o; o = k.var_pair.o });
    len = set icx.len to (record { i = h.len_pair.o; o = k.len_pair.o });
    ty = set icx.ty to (record { i = h.ty_pair.o; o = k.ty_pair.o });
    layout = set icx.layout to (record { i = h.layout_pair.o; o = k.layout_pair.o });
  }

  -- Deriving a block from a predecessor, both in the context, returns; the income of the block is then
  -- what the outcome of the predecessor was.
  pub derive_from_pre_node-new_in :
      (icx : IntroFlowContext T B) (from to : ℕ)
      → Has icx from
      → Has icx to
      → (icx' : IntroFlowContext T B) × (derive_from_pre_node icx from to ≡ ret icx')
        × (new_in icx' to ≡ new_out icx from)
  unfolding derive_from_pre_node new_out new_in passed
  derive_from_pre_node-new_in icx from to h k = (
    passed icx to h k,
    ground (
      arith,
      derive_pair-ret icx.taint from to h.has_taint k.has_taint,
      derive_pair-ret icx.var from to h.has_var k.has_var,
      derive_pair-ret icx.len from to h.has_len k.has_len,
      derive_pair-ret icx.ty from to h.has_ty k.has_ty,
      derive_pair-ret icx.layout from to h.has_layout k.has_layout,
    ),
    ground (
      arith,
      get_elem?-set-some icx.taint to (record { i = h.taint_pair.o; o = k.taint_pair.o })
          k.has_taint,
      get_elem?-set-some icx.var to (record { i = h.var_pair.o; o = k.var_pair.o }) k.has_var,
      get_elem?-set-some icx.len to (record { i = h.len_pair.o; o = k.len_pair.o }) k.has_len,
      get_elem?-set-some icx.ty to (record { i = h.ty_pair.o; o = k.ty_pair.o }) k.has_ty,
      get_elem?-set-some icx.layout to (record { i = h.layout_pair.o; o = k.layout_pair.o })
          k.has_layout,
      h.has_taint,
      h.has_var,
      h.has_len,
      h.has_ty,
      h.has_layout,
    ),
  )
