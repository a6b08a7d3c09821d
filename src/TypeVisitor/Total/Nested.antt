-- ===== src/TypeVisitor/Total/Nested.antt =====
-- Visitors that keep the definitions they are inside in a set `unique`: one that needs at most the
-- definitions missing from it, `m`, visits the fields of a definition with fewer.
use native.Mathlib.Nat.{mul-le-mul_right}
use rul_checker.Prelude.{ℕ, zero, suc, ◌+◌, ◌*◌, ◌<◌, ◌≤◌, List, arith, All, All-map, All-zip}
use rul_checker.Run.{◌>>=◌, Returns, >>=-Returns, Returns-map}
use rul_checker.Rustc.{Tcx, DefId}
use rul_checker.Rustc.Shape.{Shape, fields_of}
use rul_checker.TypeVisitor.{Visit, visit_all, visit_each}
use rul_checker.TypeVisitor.Total.{visit_all-Returns, visit_each-Returns}
use rul_checker.TypeVisitor.Total.Unique.{Grows, Grows-refl, Grows-trans, missing, missing_mono}

-- The fuel: a rank at most `top` on each level of nested definitions.
pub fuel-fields :
    (m m' top r q fuel : ℕ)
    → m' < m
    → r ≤ top
    → m * suc top + q < suc fuel
    → m' * suc top + r < fuel
fuel-fields m m' top r q fuel h k e =
    let less : suc m' * suc top ≤ m * suc top = mul-le-mul_right (suc top) h in omega arith

pub fuel-start :
    (m n top r fuel : ℕ) → m ≤ n → r ≤ top → n * suc top + top < fuel → m * suc top + r < fuel
fuel-start m n top r fuel h k e =
    let less : m * suc top ≤ n * suc top = mul-le-mul_right (suc top) h in omega arith

pub fuel-parts : (m top r q fuel : ℕ) → r < q → m * suc top + q < suc fuel → m * suc top + r < fuel
fuel-parts m top r q fuel h e = omega arith

module _ {S : Type 0} (uniq : S → List DefId) (Also : S → S → Type 0)
    (also_refl : (s : S) → Also s s) (also_trans : (a b c : S) → Also a b → Also b c → Also a c)
    (Fit : S → Type 0) (also_fit : (a b : S) → Also a b → Fit a → Fit b) (dids : List DefId) where
  -- What a visit does to the state; `Fit` is what it needs of the state beside.
  abbrev pub Rel : S → S → Type 0
  Rel a b = Grows (uniq a) (uniq b) × Also a b

  pub Rel-refl : (s : S) → Rel s s
  Rel-refl s = (Grows-refl (uniq s), also_refl s)

  pub Rel-trans : (a b c : S) → Rel a b → Rel b c → Rel a c
  Rel-trans a b c h k = (Grows-trans (uniq a) (uniq b) (uniq c) h.0 k.0, also_trans a b c h.1 k.1)

  abbrev pub AtMost : ℕ → S → Type 0
  AtMost m s = (missing dids (uniq s) ≤ m) × Fit s

  pub AtMost-Rel : (m : ℕ) (a b : S) → Rel a b → AtMost m a → AtMost m b
  AtMost-Rel m a b h k =
      let fewer = missing_mono dids (uniq a) (uniq b) h.0 in
      let most = k.0 in (omega arith, also_fit a b h.1 k.1)

  module _ {T : Type 0} (v : Visit T S) where
    -- The visit of the type returns, with at most `m` definitions missing.
    abbrev pub Returning : ℕ → T → Type 0
    Returning m t = (s : S) → AtMost m s → Returns (λ r. Rel s r.1) (v t s)

    pub visit_parts :
        (m : ℕ) (ts : List T) (s : S)
        → All (Returning m) ts
        → AtMost m s
        → Returns (λ r. Rel s r.1) (visit_all v ts s)
    visit_parts m ts s h k =
        visit_all-Returns v Rel (AtMost m) Rel-refl Rel-trans (AtMost-Rel m) ts s h k

    pub visit_fields :
        (m : ℕ) (ts : List T) (s : S)
        → All (Returning m) ts
        → AtMost m s
        → Returns (λ s'. Rel s s') (visit_each v ts s)
    visit_fields m ts s h k =
        visit_each-Returns v Rel (AtMost m) Rel-refl Rel-trans (AtMost-Rel m) ts s h k

    -- Into a definition: its fields are visited from `inside`, its parts after `leave`.
    pub visit_nested :
        (m : ℕ) (fields parts : List T) (s inside : S) (leave : S → S)
        → ((s' : S) → Rel inside s' → Rel s (leave s'))
        → All (Returning (missing dids (uniq inside))) fields
        → All (Returning m) parts
        → AtMost m s
        → Fit inside
        → Returns
            (λ r. Rel s r.1)
            (visit_each v fields inside >>= λ s'. visit_all v parts (leave s'))
    visit_nested m fields parts s inside leave back hf hp most fit =
        >>=-Returns (Rel inside) (λ r. Rel s r.1) (visit_each v fields inside) _
          (visit_fields (missing dids (uniq inside)) fields inside hf (omega arith, fit))
          (λ s' k.
            Returns-map (visit_all v parts (leave s'))
              (visit_parts m parts (leave s') hp (AtMost-Rel m s (leave s') (back s' k) most))
              (λ r k'. Rel-trans s (leave s') r.1 (back s' k) k'))

  -- A visitor on fuel returns if its step does: with the parts visited at the same number of missing
  -- definitions, and the fields at smaller ones.
  module _ (tcx : Tcx) (shape : Shape tcx) (Ok : tcx.Ty → Type 0)
      (ok_fields : (t : tcx.Ty) → Ok t → All Ok (fields_of tcx (tcx.kind t)))
      (ok_super : (t : tcx.Ty) → Ok t → All Ok (tcx.super_tys t)) (v : ℕ → Visit tcx.Ty S) where
    abbrev pub Step : Type 0
    Step =
        (fuel m : ℕ) (t : tcx.Ty)
        → shape.rank t < suc fuel
        → Ok t
        → ((m' : ℕ) → m' < m → All (Returning (v fuel) m') (fields_of tcx (tcx.kind t)))
        → All (Returning (v fuel) m) (tcx.super_tys t)
        → Returning (v (suc fuel)) m t

    pub Returning-Step :
        Step
        → (fuel m : ℕ) (t : tcx.Ty) → m * suc shape.top + shape.rank t < fuel
        → Ok t
        → Returning (v fuel) m t
    Returning-Step step zero m t h ok s k = absurd (omega arith)
    Returning-Step step (suc fuel) m t h ok s k =
        step fuel m t (omega arith) ok
          (λ m' less.
            All-map
              (λ u ok'.
                Returning-Step step fuel m' u
                  (fuel-fields m m' shape.top (shape.rank u) (shape.rank t) fuel less
                    (shape.rank_top u) h)
                  ok')
              (fields_of tcx (tcx.kind t)) (ok_fields t ok))
          (All-zip
            (λ u below ok'.
              Returning-Step step fuel m u
                (fuel-parts m shape.top (shape.rank u) (shape.rank t) fuel below h) ok')
            (tcx.super_tys t) (shape.rank_super t) (ok_super t ok))
          s k
