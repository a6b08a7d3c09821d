-- ===== src/Flow.antt =====
-- The state and the steps that the handlers of src/analysis/flow_analysis/intro_visitor.rs share.
-- A handler runs over the slice of the block and the two lists of asserted formulas, and may panic.
pub mod Names
pub mod Terms
pub mod Meaning
pub mod Assign
pub mod Fields
pub mod Drop
pub mod Call
pub mod Merge
pub mod Blocks
use Prim.Native.Char.{code}
use Prim.Native.String.{String}
use rul_checker.Prelude.{
  ℕ, zero, suc, ◌+◌, ◌/◌, ◌%◌, Bool, true, false, not, ◌||◌, List, [], ◌∷◌, ◌++◌, Option, none,
  some, set, if◌then◌else◌, ltb, get_elem?,
}
use rul_checker.Run.{Run, ret, panic, out_of_fuel, unwrap, index}
use rul_checker.Rustc.{Tcx, PlaceTy}
use rul_checker.Rustc.Mir.{Body, Place}
use rul_checker.Ownership.{AdtOwner, OwnershipLayout, OwnershipLayoutResult}
use rul_checker.TypeVisitor.{TyWithIndex, new_ty, get_priority}
use rul_checker.Order.{Graph}
use rul_checker.Layout.{extract_default_ty_layout}
use rul_checker.Z3.{Z3, Name}
use rul_checker.Slice.Context.{IntroFlowContext}
use rul_checker.State.{M, ◌>>=◌, ◌>>◌, skip, lift, gets, modify, write}
use rul_checker.Slice.{
  IcxSlice, IntroVar, declared, init, unsupported, is_unsupported, is_init, extract_var, Taint,
  is_untainted, taint_insert_all,
}

-- The code points of a literal, its bytes where it is ASCII.
abbrev pub codes : String → Name
codes String.[] = []
codes (String.◌∷◌ c s) = code c ∷ codes s

-- `n.to_string()`: the decimal digits, emitted from the last one.
abbrev pub emit : ℕ → ℕ → Name → Name
emit zero n out = out
emit (suc fuel) n out =
    let rest = emit fuel (n / 10) ((b'0' + n % 10) ∷ out) in
    if ltb n 10 then (b'0' + n) ∷ out else rest

unfoldable pub to_string : ℕ → Name
to_string n = emit (suc n) n []

abbrev pub underscore : Name
underscore = b'_' ∷ []

unfoldable pub new_local_name : ℕ → ℕ → ℕ → Name
new_local_name local bidx sidx =
    to_string bidx ++ underscore ++ to_string sidx ++ underscore ++ to_string local

-- What stays fixed while a body is visited. `fuel` bounds how deep the visits of a type nest.
pub record Cx : Type 1 where
  pub tcx : Tcx
  pub z3 : Z3
  pub body : Body tcx.Ty
  pub adt_owner : AdtOwner
  pub fuel : ℕ
  pub graph : Graph

-- The fields of `IntroFlowAnalysis` that the handlers change, and the assertions so far, the last
-- one first. `goal` also holds the markers of `help_debug_goal_stmt` and `help_debug_goal_term`.
pub record FlowState (T B F : Type 0) : Type 0 where
  pub slice : IcxSlice T B
  pub goal : List F
  pub solver : List F
  pub taint_flag : Bool
  pub icx : IntroFlowContext T B

module _ (cx : Cx) where
  open cx use {
    tcx,
    z3,
    body,
    adt_owner,
    fuel,
    tcx.{Ty, kind, place_ty, Ty-discrete},
    z3.{BV, Formula},
  }

  abbrev pub St : Type 0
  St = FlowState Ty BV Formula

  -- Reads and writes of the five vectors at a local.
  abbrev pub var : ℕ → M St (IntroVar BV)
  var u s = lift (index s.slice.var u) s

  abbrev pub len : ℕ → M St ℕ
  len u s = lift (index s.slice.len u) s

  abbrev pub ty : ℕ → M St (TyWithIndex Ty)
  ty u s = lift (index s.slice.ty u) s

  abbrev pub layout : ℕ → M St OwnershipLayout
  layout u s = lift (index s.slice.layout u) s

  abbrev pub taint : ℕ → M St (Taint Ty)
  taint u s = lift (index s.slice.taint u) s

  abbrev set_slice : IcxSlice Ty BV → M St (Unit {0})
  set_slice sl = modify (λ s. record s { slice = sl })

  abbrev pub set_var : ℕ → IntroVar BV → M St (Unit {0})
  set_var u v = do
    sl ← gets (λ s. s.slice)
    vs ← lift (write sl.var u v)
    set_slice (record sl { var = vs })

  abbrev pub set_len : ℕ → ℕ → M St (Unit {0})
  set_len u n = do
    sl ← gets (λ s. s.slice)
    ns ← lift (write sl.len u n)
    set_slice (record sl { len = ns })

  abbrev pub set_ty : ℕ → TyWithIndex Ty → M St (Unit {0})
  set_ty u t = do
    sl ← gets (λ s. s.slice)
    ts ← lift (write sl.ty u t)
    set_slice (record sl { ty = ts })

  abbrev pub set_layout : ℕ → OwnershipLayout → M St (Unit {0})
  set_layout u l = do
    sl ← gets (λ s. s.slice)
    ls ← lift (write sl.layout u l)
    set_slice (record sl { layout = ls })

  abbrev pub set_taint : ℕ → Taint Ty → M St (Unit {0})
  set_taint u t = do
    sl ← gets (λ s. s.slice)
    ts ← lift (write sl.taint u t)
    set_slice (record sl { taint = ts })

  -- `goal.assert(&f); solver.assert(&f);`
  abbrev pub assert_both : Formula → M St (Unit {0})
  assert_both f = modify (λ s. record s { goal = f ∷ s.goal; solver = f ∷ s.solver })

  -- `a._safe_eq(&b).unwrap()`, and `a._eq(&b)`, which is documented as the same.
  abbrev pub eq : BV → BV → M St Formula
  eq a b = lift (unwrap (z3.safe_eq a b))

  unfoldable pub handle_intro_var_unsupported : ℕ → M St (Unit {0})
  handle_intro_var_unsupported idx = do
    v ← var idx
    if is_unsupported v then skip else (do set_var idx unsupported; set_len idx 0)

  unfoldable pub handle_taint : ℕ → ℕ → M St (Unit {0})
  handle_taint l r = do
    tr ← taint r
    if is_untainted tr then skip else (do
      tl ← taint l
      if is_untainted tl then set_taint l tr else set_taint l (taint_insert_all Ty-discrete tl tr))

  -- `self.body().local_decls[local].ty`
  abbrev pub local_ty : ℕ → M St Ty
  local_ty u = lift (index body.local_decls u)

  -- `place.ty(&self.body().local_decls, self.tcx())`
  abbrev pub ty_of_place : Place Ty → PlaceTy Ty
  ty_of_place p = place_ty body.local_decls p

  -- `TyWithIndex::new(ty, variant)`
  abbrev pub ty_with_index : Ty → Option ℕ → M St (TyWithIndex Ty)
  ty_with_index t v = lift (new_ty (kind t) v)

  abbrev pub default_layout : Ty → Option ℕ → M St OwnershipLayoutResult
  default_layout t v = lift (extract_default_ty_layout tcx adt_owner fuel t v)
