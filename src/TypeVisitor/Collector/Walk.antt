-- ===== src/TypeVisitor/Collector/Walk.antt =====
-- What one visit of the collector leaves: the ADTs inside the type are met, and whatever is newly met
-- has its definition recorded and its parts met.
use rul_checker.Prelude.{
  ℕ, zero, suc, ◌+◌, ◌*◌, ◌<◌, ◌≤◌, ◌≡◌, refl, sym, ◌∙◌, subst, true, false, List, [], ◌∷◌, some,
  All, All-map, All-true, All-get, arith, get_elem?, Bool-cases, ◌⊎◌, inl, inr,
}
use rul_checker.Run.{Run, Returns, >>=-Returns, Returns-map}
use rul_checker.Rustc.{Tcx, TyKind, adt, is_adt, AdtDef, GenericArg, DefId}
use rul_checker.Rustc.Shape.{dids_of}
use rul_checker.TypeVisitor.{contains, insert}
use rul_checker.TypeVisitor.Total.Unique.{Grows}
use rul_checker.TypeVisitor.Total.Nested.{fuel-fields, fuel-parts}
use rul_checker.TypeVisitor.Collector.{
  TypeAnalysis, for_each, has_ty, record_ty, parts, visit_ty_kind, visit_ty,
}
use rul_checker.TypeVisitor.Collector.Met.{
  inner, Finite, Includes, Includes-cons, has_ty-cons, has_ty-cons_self, unmet, unmet_mono,
  unmet-cons,
}

-- A type inside another, on a way through types that are no ADT.
pub data Inside (tcx : Tcx) : tcx.Ty → tcx.Ty → Type 0 where
  itself : {t : tcx.Ty} → Inside tcx t t
  within :
      {t u w : tcx.Ty} (i : ℕ)
      → is_adt (tcx.kind t) ≡ false
      → get_elem? (parts tcx (tcx.kind t)) i ≡ some u
      → Inside tcx u w
      → Inside tcx t w

-- A set of definitions grows by `insert`, to hold what is inserted.
Grows-insert : (es : List DefId) (d : DefId) → Grows es (insert es d)
Grows-insert es d e h = ground (arith, h)

contains-insert : (es : List DefId) (d : DefId) → contains (insert es d) d ≡ true
contains-insert es d = ground arith

module _ (tcx : Tcx) where
  open tcx use {Ty, kind}

  abbrev pub S : Type 0
  S = TypeAnalysis Ty

  -- The ADTs inside the type are met.
  abbrev pub Covered : S → Ty → Type 0
  Covered s t = (w : Ty) → Inside tcx t w → is_adt (kind w) ≡ true → has_ty tcx s.ty_map w ≡ true

  abbrev pub Grown : S → S → Type 0
  Grown a b = Includes tcx a.ty_map b.ty_map × Grows a.adt_recorder b.adt_recorder

  -- A met type has its definition recorded and its parts covered.
  abbrev pub Explored : S → Ty → Type 0
  Explored s w =
      All (λ d. contains s.adt_recorder d ≡ true) (dids_of (kind w))
      × All (Covered s) (parts tcx (kind w))

  abbrev pub Since : S → S → Type 0
  Since a b = (w : Ty) → has_ty tcx b.ty_map w ≡ true → has_ty tcx a.ty_map w ≡ true ⊎ Explored b w

  pub Covered-Grown : (a b : S) (t : Ty) → Grown a b → Covered a t → Covered b t
  Covered-Grown a b t g c w i e = g.0 w (c w i e)

  pub Explored-Grown : (a b : S) (t : Ty) → Grown a b → Explored a t → Explored b t
  Explored-Grown a b t g h = (
    All-map (λ d k. g.1 d k) (dids_of (kind t)) h.0,
    All-map (λ u c. Covered-Grown a b u g c) (parts tcx (kind t)) h.1,
  )

  abbrev pub Post : S → List Ty → S → Type 0
  Post a ts b = Grown a b × All (Covered b) ts × Since a b × (b.fn_set ≡ a.fn_set)

  pub Grown-trans : (a b c : S) → Grown a b → Grown b c → Grown a c
  Grown-trans a b c g h = (λ t m. h.0 t (g.0 t m), λ d m. h.1 d (g.1 d m))

  pub Since-trans : (a b c : S) → Grown b c → Since a b → Since b c → Since a c
  Since-trans a b c g h k w m = elim (k w m) [
    | inl old ↦ elim (h w old) [
      | inl older ↦ inl older
      | inr done ↦ inr (Explored-Grown b c w g done)
    ]
    | inr done ↦ inr done
  ]

  module _ (fin : Finite tcx) (v : Ty → S → Run S) where
    open fin use {universe, complete, rank, top}

    -- The visit returns with at most `m` types unmet.
    abbrev pub Visits : ℕ → Ty → Type 0
    Visits m t = (s : S) → unmet tcx universe s.ty_map ≤ m → Returns (Post s (t ∷ [])) (v t s)

    pub for_each-Returns :
        (m : ℕ) (ts : List Ty) (s : S)
        → All (Visits m) ts
        → unmet tcx universe s.ty_map ≤ m
        → Returns (Post s ts) (for_each v ts s)
    for_each-Returns m [] s h le = ((λ t e. e, λ d e. e), tt, λ w e. inl e, refl)
    for_each-Returns m (t ∷ ts) s h le =
        >>=-Returns (Post s (t ∷ [])) (Post s (t ∷ ts)) (v t s) _ (h.0 s le) (λ b p.
          let fewer = unmet_mono tcx universe s.ty_map b.ty_map p.0.0 in
          Returns-map (for_each v ts b) (for_each-Returns m ts b h.1 (omega arith)) (λ c q. (
            Grown-trans s b c p.0 q.0,
            (Covered-Grown b c t q.0 p.1.0, q.1),
            Since-trans s b c q.0 p.2 q.2,
            q.3 ∙ p.3,
          )))

    Grown-record_ty : (t : Ty) (d : AdtDef) (s : S) → Grown s (record_ty tcx t d s)
    Grown-record_ty t d s = (Includes-cons tcx t s.ty_map, Grows-insert s.adt_recorder d.did)

    Covered-adt :
        (s : S) (t : Ty) → is_adt (kind t) ≡ true → has_ty tcx s.ty_map t ≡ true → Covered s t
    Covered-adt s t e m w itself e' = m
    Covered-adt s t e m w (within i no_adt part rest) e' = absurd (true-ne-false (sym e ∙ no_adt))
      where
        true-ne-false : true ≡ false → ⊥
        true-ne-false h = cc

    Covered-parts :
        (s : S) (t : Ty)
        → is_adt (kind t) ≡ false
        → All (Covered s) (parts tcx (kind t))
        → Covered s t
    Covered-parts s t e h w itself e' = absurd (true-ne-false (sym e' ∙ e))
      where
        true-ne-false : true ≡ false → ⊥
        true-ne-false h' = cc
    Covered-parts s t e h w (within i no_adt part rest) e' =
        All-get (Covered s) (parts tcx (kind t)) i h part w rest e'

    -- An ADT that was met before, and one that was not.
    met_case :
        (m : ℕ) (t : Ty) (s : S)
        → is_adt (kind t) ≡ true
        → has_ty tcx s.ty_map t ≡ true
        → Post s (t ∷ []) s
    met_case m t s e met = ((λ u h. h, λ d h. h), (Covered-adt s t e met, tt), λ w h. inl h, refl)

    new_case :
        (t : Ty) (d : AdtDef) (substs : List (GenericArg Ty)) (s b : S)
        → kind t ≡ adt d substs
        → Post (record_ty tcx t d s) (parts tcx (adt d substs)) b
        → Post s (t ∷ []) b
    new_case t d substs s b e p =
        let s1 = record_ty tcx t d s in
        let grown = Grown-trans s s1 b (Grown-record_ty t d s) p.0 in
        let met = p.0.0 t (has_ty-cons_self tcx t s.ty_map) in
        let recorded = p.0.1 d.did (contains-insert s.adt_recorder d.did) in
        let explored : Explored b t = rw e ((recorded, tt), p.1) in
        (
          grown,
          (Covered-adt b t (rw e refl) met, tt),
          λ w h. elim (p.2 w h) [
            | inl old ↦ elim (has_ty-cons tcx t s.ty_map w old) [
              | inl same ↦ inr (subst (Explored b) (sym same) explored)
              | inr older ↦ inl older
            ]
            | inr done ↦ inr done
          ],
          p.3,
        )

    inner_case :
        (m : ℕ) (t : Ty) (s : S)
        → is_adt (kind t) ≡ false
        → All (Visits m) (parts tcx (kind t))
        → unmet tcx universe s.ty_map ≤ m
        → Returns (Post s (t ∷ [])) (for_each v (parts tcx (kind t)) s)
    inner_case m t s e h le =
        Returns-map (for_each v (parts tcx (kind t)) s)
          (for_each-Returns m (parts tcx (kind t)) s h le)
          (λ b p. (p.0, (Covered-parts b t e p.1, tt), p.2, p.3))

    visit_ty_kind-Returns :
        (m : ℕ) (t : Ty) (k : TyKind Ty)
        → kind t ≡ k
        → ((m' : ℕ) → m' < m → (u : Ty) → Visits m' u)
        → All (Visits m) (inner tcx k)
        → (s : S) → unmet tcx universe s.ty_map ≤ m
        → Returns (Post s (t ∷ [])) (visit_ty_kind tcx v t k s)
    unfolding visit_ty_kind
    visit_ty_kind-Returns m t (adt d substs) e outer inn s le =
        elim (Bool-cases (has_ty tcx s.ty_map t)) [
          | inl met ↦ rw met (met_case m t s (rw e refl) met)
          | inr new ↦
              (let s1 = record_ty tcx t d s in
                let m1 = unmet tcx universe s1.ty_map in
                let less = unmet-cons tcx universe s.ty_map t new (complete t) in
                rw new (
                  Returns-map (for_each v (parts tcx (adt d substs)) s1)
                    (for_each-Returns m1 (parts tcx (adt d substs)) s1
                      (All-map (λ u _. outer m1 (omega arith) u) (parts tcx (adt d substs))
                        (All-true (parts tcx (adt d substs))))
                      (omega arith))
                    (λ b p. new_case t d substs s b e p)))
        ]
    visit_ty_kind-Returns m t k e outer inn s le =
        subst (λ x. Returns (Post s (t ∷ [])) (for_each v (parts tcx x) s)) e
          (inner_case m t s (rw e refl) (subst (λ x. All (Visits m) (parts tcx x)) (sym e) inn) le)

  pub visit_ty-Returns :
      (fin : Finite tcx) (depth m : ℕ) (t : Ty)
      → m * suc fin.top + fin.rank t < depth
      → Visits fin (visit_ty tcx depth) m t
  unfolding visit_ty
  visit_ty-Returns fin zero m t h s le = absurd (omega arith)
  visit_ty-Returns fin (suc depth) m t h s le =
      visit_ty_kind-Returns fin (visit_ty tcx depth) m t (kind t) refl
        (λ m' less u.
          visit_ty-Returns fin depth m' u
            (fuel-fields m m' fin.top (fin.rank u) (fin.rank t) depth less (fin.rank_top u) h))
        (All-map
          (λ u below.
            visit_ty-Returns fin depth m u
              (fuel-parts m fin.top (fin.rank u) (fin.rank t) depth below h))
          (inner tcx (kind t)) (fin.rank_inner t))
        s le
