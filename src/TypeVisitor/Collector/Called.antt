-- ===== src/TypeVisitor/Collector/Called.antt =====
-- The collector over the whole crate: the types of every function that is called are recorded.
use rul_checker.Prelude.{
  ℕ, suc, ◌+◌, ◌*◌, ◌<◌, ◌≡◌, true, false, List, [], some, All, All-get, arith, get_elem?, length,
  inl, inr,
}
use rul_checker.Run.{Returns, Returns-map}
use rul_checker.Rustc.{Tcx, DefId, AdtDef, GenericArg, adt}
use rul_checker.Rustc.Mir.{BasicBlockData}
use rul_checker.TypeVisitor.{contains}
use rul_checker.TypeVisitor.Total.Unique.{missing-le-length}
use rul_checker.TypeVisitor.Collector.{MirQueries, new_analysis, for_each, callee, visit_key}
use rul_checker.TypeVisitor.Collector.Met.{Finite}
use rul_checker.TypeVisitor.Collector.Walk.{S}
use rul_checker.TypeVisitor.Collector.Reached.{Reaches, Closed, recorded}
use rul_checker.TypeVisitor.Collector.Bodies.{Walk, Walked}
use rul_checker.TypeVisitor.Collector.Visits.{keys-Returns}

-- The functions of the crate, and those with a body that a block of one of these calls, and so on.
pub data Called (T : Type 0) (mir : MirQueries T) : DefId → Type 0 where
  own : (i : ℕ) {f : DefId} → get_elem? mir.mir_keys i ≡ some f → Called T mir f
  calls :
      {f g : DefId} (i : ℕ) (block : BasicBlockData T)
      → Called T mir f
      → get_elem? (mir.mir_body f).basic_blocks i ≡ some block
      → callee block.terminator ≡ some g
      → mir.is_mir_available g ≡ true
      → Called T mir g

module _ (tcx : Tcx) (mir : MirQueries tcx.Ty) where
  open mir use {mir_keys, is_mir_available, mir_body}

  absent : false ≡ true → ⊥
  absent h = cc

  Walk-Walked :
      (b : S tcx) (f : DefId)
      → Walk tcx mir new_analysis b
      → contains b.fn_set f ≡ true
      → Walked tcx mir b (mir_body f)
  Walk-Walked b f w e = elim (w.3 f e) [ inl old ↦ absurd (absent old) | inr done ↦ done ]

  Walk-Closed : (b : S tcx) → Walk tcx mir new_analysis b → Closed tcx b
  Walk-Closed b w t e = elim (w.1 t e) [ inl old ↦ absurd (absent old) | inr done ↦ done ]

  contains-Called :
      (b : S tcx) (f : DefId)
      → Walk tcx mir new_analysis b
      → All (λ g. contains b.fn_set g ≡ true) mir_keys
      → Called tcx.Ty mir f
      → contains b.fn_set f ≡ true
  contains-Called b f w keys (own i e) = All-get (λ g. contains b.fn_set g ≡ true) mir_keys i keys e
  contains-Called b f w keys (calls {f = g} i block c at to body) =
      let done = Walk-Walked b g w (contains-Called b g w keys c) in
      let followed = All-get _ (mir_body g).basic_blocks i done.1 at in (rw to at followed).0 body

  -- On a crate with finitely many types and functions with a body, the collector's loop over the
  -- functions of the crate returns, with the definition recorded of every ADT that the type of a
  -- local reaches, of a function of the crate or one that is called from there, in any number of
  -- calls. The fuel is above the number of functions with a body, the depth above the number of
  -- types times the levels of nesting between ADTs.
  pub visit_key-reaches :
      (fin : Finite tcx) (fns : List DefId) (depth fuel : ℕ) (f : DefId) (i : ℕ) (t u : tcx.Ty)
      (d : AdtDef) (substs : List (GenericArg tcx.Ty))
      → length fin.universe * suc fin.top + fin.top < depth
      → ((g : DefId) → is_mir_available g ≡ true → contains fns g ≡ true)
      → length fns < fuel
      → Called tcx.Ty mir f
      → get_elem? (mir_body f).local_decls i ≡ some t
      → Reaches tcx t u
      → tcx.kind u ≡ adt d substs
      → Returns
          (λ s. contains s.adt_recorder d.did ≡ true)
          (for_each (visit_key tcx mir depth fuel) mir_keys new_analysis)
  visit_key-reaches fin fns depth fuel f i t u d substs deep all_fns enough called local reach e =
      let le = missing-le-length fns [] in
      Returns-map (for_each (visit_key tcx mir depth fuel) mir_keys new_analysis)
        (keys-Returns tcx mir fin depth deep fns all_fns fuel mir_keys new_analysis (omega arith))
        (λ s p.
          let done = Walk-Walked s f p.0 (contains-Called s f p.0 p.1 called) in
          recorded tcx s t u d substs (Walk-Closed s p.0)
            (All-get _ (mir_body f).local_decls i done.0 local) reach e)
