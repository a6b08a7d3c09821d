-- ===== src/TypeVisitor/Collector/Visits.antt =====
-- The walk over the bodies of a crate returns: each visit leaves what Bodies says, since a function is
-- visited only when it is newly met.
use rul_checker.Prelude.{
  ℕ, zero, suc, ◌+◌, ◌*◌, ◌<◌, ◌≤◌, ◌≡◌, sym, subst, true, false, not, ◌&&◌, List, [], ◌∷◌, Option,
  none, some, All, All-map, All-true, arith, length, Bool-cases, inl, inr, ◌==◌, ==_iff,
  if◌then◌else◌,
}
use rul_checker.Run.{Run, ret, Returns, >>=-Returns, Returns-map}
use rul_checker.Rustc.{Tcx, DefId}
use rul_checker.Rustc.Mir.{Body, BasicBlockData}
use rul_checker.TypeVisitor.{contains}
use rul_checker.TypeVisitor.Total.Unique.{Grows-cons, missing, missing_mono, missing-cons}
use rul_checker.TypeVisitor.Collector.{
  MirQueries, for_each, callee, visit_ty, visit_basic_block_data, visit_body, visit_key,
}
use rul_checker.TypeVisitor.Collector.Met.{Finite, unmet-le-length}
use rul_checker.TypeVisitor.Collector.Walk.{
  S, Post, Covered-Grown, for_each-Returns, visit_ty-Returns,
}
use rul_checker.TypeVisitor.Collector.Bodies.{
  callees, Followed, Walked, Walk, Walk-refl, Walk-trans, Followed-Grows,
}

true-ne-false : true ≡ false → ⊥
true-ne-false h = cc

module _ (tcx : Tcx) (mir : MirQueries tcx.Ty) where
  open mir use {is_mir_available, mir_body}

  -- Types of the crate are finitely many, and so are functions with a body.
  module _ (fin : Finite tcx) (depth : ℕ)
      (enough : length fin.universe * suc fin.top + fin.top < depth) (fns : List DefId)
      (all_fns : (f : DefId) → is_mir_available f ≡ true → contains fns f ≡ true) where
    locals-Returns :
        (ts : List tcx.Ty) (s : S tcx)
        → Returns (Post tcx s ts) (for_each (visit_ty tcx depth) ts s)
    locals-Returns ts s =
        for_each-Returns tcx fin (visit_ty tcx depth) (length fin.universe) ts s
          (All-map
            (λ t _.
              let le = fin.rank_top t in
              visit_ty-Returns tcx fin depth (length fin.universe) t (omega arith))
            ts (All-true ts))
          (unmet-le-length tcx fin.universe s.ty_map)

    -- A visit of the body returns, with at most `k` functions not met.
    abbrev pub VisitsBody : (Body tcx.Ty → S tcx → Run (S tcx)) → ℕ → Body tcx.Ty → Type 0
    VisitsBody v k body =
        (s : S tcx)
        → missing fns s.fn_set ≤ k
        → Returns (λ b. Walk tcx mir s b × Walked tcx mir b body) (v body s)

    -- From a state with the function just met.
    pub enter :
        (g : DefId) (s b : S tcx)
        → Walk tcx mir (record s { fn_set = g ∷ s.fn_set }) b
        → Walked tcx mir b (mir_body g)
        → Walk tcx mir s b
    enter g s b w done = (
      w.0,
      w.1,
      λ f e. w.2 f (Grows-cons s.fn_set g f e),
      λ f e. elim (w.3 f e) [
        | inr h ↦ inr h
        | inl old ↦ elim (Bool-cases (f == g)) [
          | inl same ↦
              inr (subst (λ x. Walked tcx mir b (mir_body x)) (sym ((==_iff f g).0 same)) done)
          | inr other ↦ inl (ground (arith, old, other))
        ]
      ],
    )

    contains-cons : (g : DefId) (es : List DefId) → contains (g ∷ es) g ≡ true
    contains-cons g es = ground arith

    callee-Returns :
        (v : Body tcx.Ty → S tcx → Run (S tcx)) (k : ℕ) (block : BasicBlockData tcx.Ty) (s : S tcx)
        → ((k' : ℕ) → k' < k → (body : Body tcx.Ty) → VisitsBody v k' body)
        → missing fns s.fn_set ≤ k
        → Returns
            (λ b. Walk tcx mir s b × Followed tcx mir b block)
            (visit_basic_block_data tcx mir depth v block s)
    unfolding visit_basic_block_data
    callee-Returns v k block s visits le = cases (callee block.terminator)
      where
        cases :
            (o : Option DefId)
            → Returns
                (λ b.
                  Walk tcx mir s b
                  × All (λ g. is_mir_available g ≡ true → contains b.fn_set g ≡ true) (callees o))
                (elim o [
                  | none ↦ ret s
                  | some did ↦
                      if is_mir_available did && not (contains s.fn_set did)
                      then v (mir_body did) (record s { fn_set = did ∷ s.fn_set })
                      else ret s
                ])
        cases none = (Walk-refl tcx mir s, tt)
        cases (some g) = elim (Bool-cases (is_mir_available g)) [
          | inr no_body ↦
              rw no_body (Walk-refl tcx mir s, (λ e. absurd (true-ne-false (sym e)), tt))
          | inl body ↦ elim (Bool-cases (contains s.fn_set g)) [
            | inl met ↦ rw (body, met) (Walk-refl tcx mir s, (λ e. met, tt))
            | inr new ↦
                (let less = missing-cons fns s.fn_set g new (all_fns g body) in
                  let s1 : S tcx = record s { fn_set = g ∷ s.fn_set } in
                  rw (body, new)
                    (Returns-map (v (mir_body g) s1)
                      (visits (missing fns s1.fn_set) (omega arith) (mir_body g) s1 (omega arith))
                      (λ b p.
                        (enter g s b p.0 p.1, (λ e. p.0.2 g (contains-cons g s.fn_set), tt)))))
          ]
        ]

    blocks-Returns :
        (v : Body tcx.Ty → S tcx → Run (S tcx)) (k : ℕ) (blocks : List (BasicBlockData tcx.Ty))
        (s : S tcx)
        → ((k' : ℕ) → k' < k → (body : Body tcx.Ty) → VisitsBody v k' body)
        → missing fns s.fn_set ≤ k
        → Returns
            (λ b. Walk tcx mir s b × All (Followed tcx mir b) blocks)
            (for_each (visit_basic_block_data tcx mir depth v) blocks s)
    blocks-Returns v k [] s visits le = (Walk-refl tcx mir s, tt)
    blocks-Returns v k (block ∷ blocks) s visits le =
        >>=-Returns (λ b. Walk tcx mir s b × Followed tcx mir b block)
          (λ c. Walk tcx mir s c × All (Followed tcx mir c) (block ∷ blocks))
          (visit_basic_block_data tcx mir depth v block s) _ (callee-Returns v k block s visits le)
          (λ b p.
            let fewer = missing_mono fns s.fn_set b.fn_set p.0.2 in
            Returns-map (for_each (visit_basic_block_data tcx mir depth v) blocks b)
              (blocks-Returns v k blocks b visits (omega arith))
              (λ c q. (
                Walk-trans tcx mir s b c p.0 q.0,
                (Followed-Grows tcx mir b c block q.0.2 p.1, q.1),
              )))

    -- The visit of types leaves the functions as they were.
    Walk-Post : (ts : List tcx.Ty) (s b : S tcx) → Post tcx s ts b → Walk tcx mir s b
    Walk-Post ts s b p =
        (p.0, p.2, (λ f e. rw p.3 e), λ f e. inl (subst (λ x. contains x f ≡ true) p.3 e))

    pub visit_body-Returns :
        (fuel k : ℕ) (body : Body tcx.Ty)
        → k < fuel
        → VisitsBody (visit_body tcx mir depth fuel) k body
    unfolding visit_body
    visit_body-Returns zero k body h s le = absurd (omega arith)
    visit_body-Returns (suc fuel) k body h s le =
        >>=-Returns (Post tcx s body.local_decls) (λ c. Walk tcx mir s c × Walked tcx mir c body)
          (for_each (visit_ty tcx depth) body.local_decls s) _ (locals-Returns body.local_decls s)
          (λ b p.
            let same : missing fns b.fn_set ≤ k = rw p.3 le in
            Returns-map
              (for_each (visit_basic_block_data tcx mir depth (visit_body tcx mir depth fuel))
                body.basic_blocks b)
              (blocks-Returns (visit_body tcx mir depth fuel) k body.basic_blocks b
                (λ k' less inner. visit_body-Returns fuel k' inner (omega arith)) same)
              (λ c q. (
                Walk-trans tcx mir s b c (Walk-Post body.local_decls s b p) q.0,
                (All-map (λ t w. Covered-Grown tcx b c t q.0.0 w) body.local_decls p.1, q.1),
              )))

    -- One function of the crate, and then all of them.
    visit_key-Returns :
        (fuel : ℕ) (f : DefId) (s : S tcx)
        → missing fns s.fn_set < fuel
        → Returns
            (λ b. Walk tcx mir s b × (contains b.fn_set f ≡ true))
            (visit_key tcx mir depth fuel f s)
    unfolding visit_key
    visit_key-Returns fuel f s h = elim (Bool-cases (contains s.fn_set f)) [
      | inl met ↦ rw met (Walk-refl tcx mir s, met)
      | inr new ↦
          (let s1 : S tcx = record s { fn_set = f ∷ s.fn_set } in
            let fewer = missing_mono fns s.fn_set s1.fn_set (Grows-cons s.fn_set f) in
            rw new (
              Returns-map (visit_body tcx mir depth fuel (mir_body f) s1)
                (visit_body-Returns fuel (missing fns s1.fn_set) (mir_body f) (omega arith) s1
                  (omega arith))
                (λ b p. (enter f s b p.0 p.1, p.0.2 f (contains-cons f s.fn_set)))))
    ]

    pub keys-Returns :
        (fuel : ℕ) (fs : List DefId) (s : S tcx)
        → missing fns s.fn_set < fuel
        → Returns
            (λ b. Walk tcx mir s b × All (λ f. contains b.fn_set f ≡ true) fs)
            (for_each (visit_key tcx mir depth fuel) fs s)
    keys-Returns fuel [] s h = (Walk-refl tcx mir s, tt)
    keys-Returns fuel (f ∷ fs) s h =
        >>=-Returns (λ b. Walk tcx mir s b × (contains b.fn_set f ≡ true))
          (λ c. Walk tcx mir s c × All (λ g. contains c.fn_set g ≡ true) (f ∷ fs))
          (visit_key tcx mir depth fuel f s) _ (visit_key-Returns fuel f s h)
          (λ b p.
            let fewer = missing_mono fns s.fn_set b.fn_set p.0.2 in
            Returns-map (for_each (visit_key tcx mir depth fuel) fs b)
              (keys-Returns fuel fs b (omega arith))
              (λ c q. (Walk-trans tcx mir s b c p.0 q.0, (q.0.2 f p.1, q.1))))
