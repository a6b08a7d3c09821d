-- ===== src/TypeVisitor/Collector.antt =====
-- `TypeAnalysis` as a MIR visitor, in src/analysis/type_analysis/type_visitor.rs: it walks the bodies
-- of the crate and of what they call, and records the types of the locals with all that they hold.
-- Each nesting of types takes one unit of `depth`, each nesting of calls one unit of fuel.
pub mod Met
pub mod Walk
pub mod Reached
pub mod Bodies
pub mod Visits
pub mod Called
use rul_checker.Prelude.{
  ℕ, zero, suc, Bool, true, false, ◌&&◌, not, List, [], ◌∷◌, ◌++◌, Option, none, some,
  if◌then◌else◌,
}
use rul_checker.Run.{Run, ret, out_of_fuel, ◌>>=◌}
use rul_checker.Rustc.{Tcx, TyKind, adt, array, slice, raw_ptr, ref, tuple, DefId, AdtDef}
use rul_checker.Rustc.Mir.{Body, BasicBlockData, TerminatorKind, call, constant}
use rul_checker.Ownership.{AdtOwner}
use rul_checker.TypeVisitor.{contains, insert, all_field_tys}
use rul_checker.Rustc.Shape.{type_args}
use rul_checker.TypeVisitor.Phases.{run_passes}

-- The queries of the compiler that the walk makes: `tcx.mir_keys(())`, `tcx.is_mir_available(did)`
-- and `tcx.instance_mir(…)`, which `mir_body` calls.
pub record MirQueries (T : Type 0) : Type 0 where
  pub mir_keys : List DefId
  pub is_mir_available : DefId → Bool
  pub mir_body : DefId → Body T

-- `fn_set`, the keys of `ty_map` (its values are the types' names, for display) and `adt_recorder`.
pub record TypeAnalysis (T : Type 0) : Type 0 where
  pub fn_set : List DefId
  pub ty_map : List T
  pub adt_recorder : List DefId

abbrev pub new_analysis : {T : Type 0} → TypeAnalysis T
new_analysis = record { fn_set = []; ty_map = []; adt_recorder = [] }

-- A loop that calls a method on each element.
abbrev pub for_each : {A S : Type 0} → (A → S → Run S) → List A → S → Run S
for_each f [] s = ret s
for_each f (x ∷ xs) s = f x s >>= λ s'. for_each f xs s'

-- The function that a block calls, if its callee is a constant of a function's type.
abbrev pub callee : {T : Type 0} → TerminatorKind T → Option DefId
callee (call (constant did) args dest target) = did
callee _ = none

module _ (tcx : Tcx) where
  open tcx use {Ty, Ty-discrete, kind}

  -- `self.ty_map().get(&ty).is_some()`
  abbrev pub has_ty : List Ty → Ty → Bool
  has_ty [] t = false
  has_ty (u ∷ us) t = elim (Ty-discrete t u) [ yes p ↦ true | no p ↦ has_ty us t ]

  abbrev pub record_ty : Ty → AdtDef → TypeAnalysis Ty → TypeAnalysis Ty
  record_ty ty d s = record s { ty_map = ty ∷ s.ty_map; adt_recorder = insert s.adt_recorder d.did }

  -- The types that a visit goes on to, for a type that was not met.
  abbrev pub parts : TyKind Ty → List Ty
  parts (adt d substs) = all_field_tys tcx d substs ++ type_args substs
  parts (array t size) = t ∷ []
  parts (slice t) = t ∷ []
  parts (raw_ptr t mutbl) = t ∷ []
  parts (ref region t mutbl) = t ∷ []
  parts (tuple ts) = ts
  parts _ = []

  pub visit_ty_kind :
      (Ty → TypeAnalysis Ty → Run (TypeAnalysis Ty))
      → Ty
      → TyKind Ty
      → TypeAnalysis Ty
      → Run (TypeAnalysis Ty)
  visit_ty_kind v ty (adt d substs) s =
      if has_ty s.ty_map ty then ret s else for_each v (parts (adt d substs)) (record_ty ty d s)
  visit_ty_kind v ty k s = for_each v (parts k) s

  unfoldable pub visit_ty : ℕ → Ty → TypeAnalysis Ty → Run (TypeAnalysis Ty)
  unfolding visit_ty_kind
  visit_ty zero ty s = out_of_fuel
  visit_ty (suc depth) ty s = visit_ty_kind (visit_ty depth) ty (kind ty) s

  module _ (mir : MirQueries Ty) (depth : ℕ) where
    open mir use {mir_keys, is_mir_available, mir_body}

    pub visit_basic_block_data :
        (Body Ty → TypeAnalysis Ty → Run (TypeAnalysis Ty))
        → BasicBlockData Ty
        → TypeAnalysis Ty
        → Run (TypeAnalysis Ty)
    visit_basic_block_data v block s = elim (callee block.terminator) [
      | none ↦ ret s
      | some did ↦
          if is_mir_available did && not (contains s.fn_set did)
          then v (mir_body did) (record s { fn_set = did ∷ s.fn_set })
          else ret s
    ]

    pub visit_body : ℕ → Body Ty → TypeAnalysis Ty → Run (TypeAnalysis Ty)
    unfolding visit_ty visit_basic_block_data
    visit_body zero body s = out_of_fuel
    visit_body (suc fuel) body s = for_each (visit_ty depth) body.local_decls s >>= λ s'.
        for_each (visit_basic_block_data (visit_body fuel)) body.basic_blocks s'

    -- One round of the loop over the functions of the crate.
    pub visit_key : ℕ → DefId → TypeAnalysis Ty → Run (TypeAnalysis Ty)
    unfolding visit_body
    visit_key fuel did s =
        if contains s.fn_set did
        then ret s
        else visit_body fuel (mir_body did) (record s { fn_set = did ∷ s.fn_set })

    -- `visitor`: it collects the types, then fills in the owners of those it recorded, in the order
    -- `iter` in which a hash set is iterated.
    unfoldable pub visitor : (List DefId → List DefId) → ℕ → AdtOwner → Run AdtOwner
    unfolding visit_key run_passes
    visitor iter fuel owner = for_each (visit_key fuel) mir_keys new_analysis >>= λ s.
        run_passes tcx depth (iter s.adt_recorder) owner
