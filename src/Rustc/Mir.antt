-- ===== src/Rustc/Mir.antt =====
-- rustc_middle::mir, as far as the code under src/ reads it. A block, a local, a field and a variant
-- are their indices.
use rul_checker.Prelude.{ℕ, List, Option}

pub data ProjectionElem (T : Type 0) : Type 0 where
  field_elem : ℕ → T → ProjectionElem T
  deref_elem : ProjectionElem T
  downcast_elem : ℕ → ProjectionElem T
  index_elem constant_index subslice : ProjectionElem T

pub record Place (T : Type 0) : Type 0 where
  pub local : ℕ
  pub projection : List (ProjectionElem T)

-- The constant operand keeps what `handle_call` and the type collector read of it: the index of the
-- function that it names, if its type is a `FnDef`.
pub data Operand (T : Type 0) : Type 0 where
  copy move : Place T → Operand T
  constant : Option ℕ → Operand T

pub data Rvalue (T : Type 0) : Type 0 where
  use_op cast : Operand T → Rvalue T
  ref_of address_of : Place T → Rvalue T
  other_rvalue : Rvalue T

pub data StatementKind (T : Type 0) : Type 0 where
  assign : Place T → Rvalue T → StatementKind T
  storage_live storage_dead : ℕ → StatementKind T
  other_stmt : StatementKind T

-- `switch_int` carries `targets.all_targets()`; `call` carries func, args, destination and target.
pub data TerminatorKind (T : Type 0) : Type 0 where
  goto : ℕ → TerminatorKind T
  switch_int : List ℕ → TerminatorKind T
  resume abort return unreachable : TerminatorKind T
  drop : Place T → ℕ → TerminatorKind T
  drop_and_replace : TerminatorKind T
  assert : ℕ → TerminatorKind T
  yield generator_drop false_edge false_unwind inline_asm : TerminatorKind T
  call : Operand T → List (Operand T) → Place T → Option ℕ → TerminatorKind T

pub record BasicBlockData (T : Type 0) : Type 0 where
  pub statements : List (StatementKind T)
  pub terminator : TerminatorKind T

pub record Body (T : Type 0) : Type 0 where
  -- the types of `local_decls`
  pub local_decls : List T
  pub arg_count : ℕ
  pub basic_blocks : List (BasicBlockData T)
