-- ===== src/TypeVisitor/Collector/Bodies.antt =====
-- What the walk over the bodies leaves: whatever function is newly met has the types of its locals
-- covered and the functions that it calls met.
use rul_checker.Prelude.{◌≡◌, true, List, [], ◌∷◌, Option, none, some, All, All-map, ◌⊎◌, inl, inr}
use rul_checker.Rustc.{Tcx, DefId}
use rul_checker.Rustc.Mir.{Body, BasicBlockData}
use rul_checker.TypeVisitor.{contains}
use rul_checker.TypeVisitor.Total.Unique.{Grows, Grows-refl, Grows-trans}
use rul_checker.TypeVisitor.Collector.{MirQueries, callee}
use rul_checker.TypeVisitor.Collector.Walk.{
  S, Covered, Grown, Since, Covered-Grown, Grown-trans, Since-trans,
}

abbrev pub callees : Option DefId → List DefId
callees none = []
callees (some g) = g ∷ []

module _ (tcx : Tcx) (mir : MirQueries tcx.Ty) where
  open mir use {is_mir_available, mir_body}

  -- The function that the block calls is met, if it has a body.
  abbrev pub Followed : S tcx → BasicBlockData tcx.Ty → Type 0
  Followed s block =
      All (λ g. is_mir_available g ≡ true → contains s.fn_set g ≡ true)
        (callees (callee block.terminator))

  abbrev pub Walked : S tcx → Body tcx.Ty → Type 0
  Walked s body = All (Covered tcx s) body.local_decls × All (Followed s) body.basic_blocks

  abbrev pub FnSince : S tcx → S tcx → Type 0
  FnSince a b =
      (f : DefId) → contains b.fn_set f ≡ true → contains a.fn_set f ≡ true ⊎ Walked b (mir_body f)

  abbrev pub Walk : S tcx → S tcx → Type 0
  Walk a b = Grown tcx a b × Since tcx a b × Grows a.fn_set b.fn_set × FnSince a b

  pub Walk-refl : (s : S tcx) → Walk s s
  Walk-refl s = ((λ t e. e, λ d e. e), λ w e. inl e, Grows-refl s.fn_set, λ f e. inl e)

  pub Followed-Grows :
      (a b : S tcx) (block : BasicBlockData tcx.Ty)
      → Grows a.fn_set b.fn_set
      → Followed a block
      → Followed b block
  Followed-Grows a b block g h = All-map (λ f k e. g f (k e)) (callees (callee block.terminator)) h

  pub Walked-Walk : (a b : S tcx) (body : Body tcx.Ty) → Walk a b → Walked a body → Walked b body
  Walked-Walk a b body w h = (
    All-map (λ t c. Covered-Grown tcx a b t w.0 c) body.local_decls h.0,
    All-map (λ block k. Followed-Grows a b block w.2 k) body.basic_blocks h.1,
  )

  pub Walk-trans : (a b c : S tcx) → Walk a b → Walk b c → Walk a c
  Walk-trans a b c h k = (
    Grown-trans tcx a b c h.0 k.0,
    Since-trans tcx a b c k.0 h.1 k.1,
    Grows-trans a.fn_set b.fn_set c.fn_set h.2 k.2,
    λ f e. elim (k.3 f e) [
      | inr done ↦ inr done
      | inl old ↦ elim (h.3 f old) [
        | inl older ↦ inl older
        | inr done ↦ inr (Walked-Walk b c (mir_body f) k done)
      ]
    ],
  )
