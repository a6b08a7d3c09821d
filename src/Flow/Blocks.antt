-- ===== src/Flow/Blocks.antt =====
-- The walk over a body in src/analysis/flow_analysis/intro_visitor.rs: blocks in topological order,
-- and in each its statements and its terminator.
use rul_checker.Prelude.{ℕ, suc, false, List, [], ◌∷◌, ◌++◌, Option, none, if◌then◌else◌, length}
use rul_checker.Run.{index}
use rul_checker.State.{M, ◌>>=◌, ◌>>◌, skip, lift, gets, modify}
use rul_checker.Rustc.Mir.{
  Place, Operand, copy, move, constant, Rvalue, use_op, cast, ref_of, address_of, other_rvalue,
  StatementKind, assign, storage_live, storage_dead, other_stmt, TerminatorKind, drop, call, return,
  BasicBlockData,
}
use rul_checker.Projection.{has_projection}
use rul_checker.Slice.{default_slice, new_for_block_0}
use rul_checker.Slice.Context.{derive_from_icx_slice, new_context}
use rul_checker.Z3.{Name}
use rul_checker.Flow.{codes, to_string, Cx, St}
use rul_checker.Flow.Assign.{
  handle_copy, handle_move, handle_copy_from_field, handle_move_from_field,
}
use rul_checker.Flow.Fields.{
  handle_copy_to_field, handle_move_to_field, handle_copy_field_to_field,
  handle_move_field_to_field,
}
use rul_checker.Flow.Drop.{handle_drop, handle_return}
use rul_checker.Flow.Call.{handle_call}
use rul_checker.Flow.Merge.{preprocess_for_basic_block}

abbrev space : Name
space = b' ' ∷ []

module _ (cx : Cx) where
  open cx use {z3, body, graph, tcx.{Ty}, z3.{BV, Formula, bool_const}}

  -- A marker in the goal alone.
  abbrev mark : Name → M (St cx) (Unit {0})
  mark name = modify (λ s. record s { goal = bool_const name ∷ s.goal })

  help_debug_goal_stmt : ℕ → ℕ → M (St cx) (Unit {0})
  help_debug_goal_stmt bidx sidx =
      mark (codes "CONSTRAINTS: S " ++ to_string bidx ++ space ++ to_string sidx)

  help_debug_goal_term : ℕ → M (St cx) (Unit {0})
  help_debug_goal_term bidx = mark (codes "CONSTRAINTS: T " ++ to_string bidx)

  -- The choice by `(lvalue_has_projection, rvalue_has_projection)`, for a copy and for a move.
  assign_copy : Place Ty → Place Ty → Option ℕ → ℕ → ℕ → M (St cx) (Unit {0})
  assign_copy l r disc bidx sidx =
      if has_projection l
      then (if has_projection r
          then handle_copy_field_to_field cx l r disc bidx sidx
          else handle_copy_to_field cx l r disc bidx sidx)
      else if has_projection r
      then handle_copy_from_field cx l r bidx sidx
      else handle_copy cx l r bidx sidx

  assign_move : Place Ty → Place Ty → Option ℕ → ℕ → ℕ → M (St cx) (Unit {0})
  assign_move l r disc bidx sidx =
      if has_projection l
      then (if has_projection r
          then handle_move_field_to_field cx l r disc bidx sidx
          else handle_move_to_field cx l r disc bidx sidx)
      else if has_projection r
      then handle_move_from_field cx l r bidx sidx
      else handle_move cx l r bidx sidx

  visit_operand : Place Ty → Operand Ty → Option ℕ → ℕ → ℕ → M (St cx) (Unit {0})
  unfolding assign_copy assign_move
  visit_operand l (copy r) disc bidx sidx = assign_copy l r disc bidx sidx
  visit_operand l (move r) disc bidx sidx = assign_move l r disc bidx sidx
  visit_operand l (constant f) disc bidx sidx = skip

  unfoldable pub visit_assign : Place Ty → Rvalue Ty → Option ℕ → ℕ → ℕ → M (St cx) (Unit {0})
  unfolding visit_operand
  visit_assign l (use_op op) disc bidx sidx = visit_operand l op disc bidx sidx
  visit_assign l (ref_of r) disc bidx sidx = assign_copy l r disc bidx sidx
  visit_assign l (address_of r) disc bidx sidx = assign_copy l r disc bidx sidx
  visit_assign l (cast op) disc bidx sidx = visit_operand l op disc bidx sidx
  visit_assign l other_rvalue disc bidx sidx = skip

  -- The bodies of `handle_stmt_live` and `handle_stmt_dead` are commented out.
  unfoldable pub visit_statement : StatementKind Ty → ℕ → ℕ → M (St cx) (Unit {0})
  unfolding visit_assign help_debug_goal_stmt
  visit_statement (assign place rvalue) bidx sidx = do
    help_debug_goal_stmt bidx sidx
    visit_assign place rvalue none bidx sidx
  visit_statement (storage_live u) bidx sidx = skip
  visit_statement (storage_dead u) bidx sidx = skip
  visit_statement other_stmt bidx sidx = skip

  dispatch_terminator : TerminatorKind Ty → ℕ → M (St cx) (Unit {0})
  dispatch_terminator (drop place target) bidx = handle_drop cx place bidx false
  dispatch_terminator (call func args dest target) bidx = handle_call cx func args dest bidx
  dispatch_terminator return bidx = handle_return cx bidx
  dispatch_terminator _ bidx = skip

  unfoldable pub visit_terminator : TerminatorKind Ty → ℕ → M (St cx) (Unit {0})
  unfolding dispatch_terminator help_debug_goal_term
  visit_terminator term bidx = do help_debug_goal_term bidx; dispatch_terminator term bidx

  visit_statements : ℕ → ℕ → List (StatementKind Ty) → M (St cx) (Unit {0})
  unfolding visit_statement
  visit_statements bidx sidx [] = skip
  visit_statements bidx sidx (stmt ∷ stmts) = do
    visit_statement stmt bidx sidx
    visit_statements bidx (suc sidx) stmts

  unfoldable pub reprocess_for_basic_block : ℕ → M (St cx) (Unit {0})
  reprocess_for_basic_block bidx = do
    s ← gets (λ s. s)
    icx' ← lift (derive_from_icx_slice s.icx s.slice bidx)
    modify (λ s. record s { slice = default_slice; icx = icx' })

  unfoldable pub visit_block_data : BasicBlockData Ty → ℕ → M (St cx) (Unit {0})
  unfolding visit_statements visit_terminator reprocess_for_basic_block
  visit_block_data block bidx = do
    preprocess_for_basic_block cx bidx
    visit_statements bidx 0 block.statements
    visit_terminator block.terminator bidx
    reprocess_for_basic_block bidx

  visit_blocks : List ℕ → M (St cx) (Unit {0})
  unfolding visit_block_data
  visit_blocks [] = skip
  visit_blocks (bidx ∷ topo) = do
    block ← lift (index body.basic_blocks bidx)
    visit_block_data block bidx
    visit_blocks topo

  unfoldable pub visit_body : M (St cx) (Unit {0})
  unfolding visit_blocks
  visit_body = visit_blocks graph.topo

  -- `IntroFlowAnalysis::new`
  unfoldable pub new_state : St cx
  unfolding new_for_block_0 new_context
  new_state = record {
    slice = new_for_block_0 (length body.local_decls);
    goal = [];
    solver = [];
    taint_flag = false;
    icx = new_context (length body.basic_blocks) (length body.local_decls);
  }
