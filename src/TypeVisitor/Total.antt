-- ===== src/TypeVisitor/Total.antt =====
-- Loops over types that return: the visits relate the states before and after, and what they need
-- of a state stays true.
pub mod Unique
pub mod Nested
use rul_checker.Prelude.{List, [], ◌∷◌, All}
use rul_checker.Run.{Run, ret, Returns, >>=-Returns, Returns-map}
use rul_checker.TypeVisitor.{ControlFlow, continue, break, Visit, visit_all, visit_each}

module _ {T S : Type 0} (v : Visit T S) (Rel : S → S → Type 0) (Cond : S → Type 0)
    (rel_refl : (s : S) → Rel s s) (rel_trans : (a b c : S) → Rel a b → Rel b c → Rel a c)
    (rel_cond : (a b : S) → Rel a b → Cond a → Cond b) where
  -- The visit of the type returns, in every state that has what it needs.
  abbrev pub Visits : T → Type 0
  Visits t = (s : S) → Cond s → Returns (λ r. Rel s r.1) (v t s)

  after :
      (c : ControlFlow) (rest : Run (ControlFlow × S)) (a b : S)
      → Rel a b
      → Returns (λ r. Rel b r.1) rest
      → Returns (λ r. Rel a r.1) (elim c [ continue ↦ rest | break ↦ ret (break, b) ])
  after continue rest a b h k = Returns-map rest k (λ r h'. rel_trans a b r.1 h h')
  after break rest a b h k = h

  pub visit_all-Returns :
      (ts : List T) (s : S) → All Visits ts → Cond s → Returns (λ r. Rel s r.1) (visit_all v ts s)
  unfolding visit_all
  visit_all-Returns [] s h c = rel_refl s
  visit_all-Returns (t ∷ ts) s h c =
      >>=-Returns (λ r. Rel s r.1) (λ r. Rel s r.1) (v t s) _ (h.0 s c)
        (λ r k.
          after r.0 (visit_all v ts r.1) s r.1 k
            (visit_all-Returns ts r.1 h.1 (rel_cond s r.1 k c)))

  pub visit_each-Returns :
      (ts : List T) (s : S) → All Visits ts → Cond s → Returns (λ s'. Rel s s') (visit_each v ts s)
  unfolding visit_each
  visit_each-Returns [] s h c = rel_refl s
  visit_each-Returns (t ∷ ts) s h c =
      >>=-Returns (λ r. Rel s r.1) (λ s'. Rel s s') (v t s) _ (h.0 s c)
        (λ r k.
          Returns-map (visit_each v ts r.1) (visit_each-Returns ts r.1 h.1 (rel_cond s r.1 k c))
            (λ s' k'. rel_trans s r.1 s' k k'))
