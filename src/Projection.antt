-- ===== src/Projection.antt =====
-- The projections of a place, src/analysis/flow_analysis/intro_visitor.rs: the analysis follows one
-- field, perhaps of a variant, and gives up on all else.
pub mod Shapes
use rul_checker.Prelude.{
  ℕ, zero, suc, ◌≡◌, refl, ◌↔◌, ◌⊎◌, inl, inr, Bool, true, false, not, List, [], ◌∷◌, ◌++◌, Option,
  none, some, length, if◌then◌else◌, arith, leb, ltb,
}
use rul_checker.Run.{Run, ret, panic}
use rul_checker.Rustc.Mir.{
  Place, ProjectionElem, field_elem, deref_elem, downcast_elem, index_elem, constant_index,
  subslice,
}

pub record ProjectionSupport (T : Type 0) : Type 0 where
  pub pf_vec : List (ℕ × T)
  pub deref : Bool
  pub downcast : Option ℕ
  pub unsupport : Bool

module _ {T : Type 0} where
  abbrev pub default_support : ProjectionSupport T
  default_support = record { pf_vec = []; deref = false; downcast = none; unsupport = false }

  abbrev pub has_field : ProjectionSupport T → Bool
  has_field p = ltb 0 (length p.pf_vec)

  abbrev pub has_downcast : ProjectionSupport T → Bool
  has_downcast p = elim p.downcast [ none ↦ false | some v ↦ true ]

  -- `self.pf_vec[0].0`
  abbrev pub index_needed : ProjectionSupport T → Run ℕ
  index_needed p = elim p.pf_vec [ [] ↦ panic | f ∷ fs ↦ ret f.0 ]

  abbrev pub has_projection : Place T → Bool
  has_projection p = ltb 0 (length p.projection)

  unfoldable pub pf_push : ProjectionSupport T → ℕ → T → ProjectionSupport T
  pf_push p index ty = record p { pf_vec = p.pf_vec ++ (index, ty) ∷ [] }

  pub give_up : ProjectionSupport T → ProjectionSupport T
  give_up p = record p { unsupport = true }

  -- The body of the loop at one element, and whether it breaks.
  pub extract_elem : ℕ → ProjectionElem T → ProjectionSupport T → ProjectionSupport T × Bool
  unfolding pf_push give_up
  extract_elem idx (field_elem f ty) ans =
      let ans' = pf_push ans f ty in
      if ltb 1 (length ans'.pf_vec)
      then (give_up ans', true)
      else if ans'.deref
      then (give_up ans', true)
      else (ans', false)
  extract_elem idx deref_elem ans =
      let ans' = record ans { deref = true } in
      if ltb 0 idx then (give_up ans', true) else (ans', false)
  extract_elem idx (downcast_elem v) ans =
      let ans' = record ans { downcast = some v } in
      if ltb 0 idx then (give_up ans', true) else (ans', false)
  extract_elem idx constant_index ans = (give_up ans, true)
  extract_elem idx subslice ans = (give_up ans, true)
  extract_elem idx index_elem ans = (give_up ans, true)

  pub extract_loop : ℕ → List (ProjectionElem T) → ProjectionSupport T → ProjectionSupport T
  unfolding extract_elem
  extract_loop idx [] ans = ans
  extract_loop idx (e ∷ es) ans =
      let (ans', done) = extract_elem idx e ans in
      let rest = extract_loop (suc idx) es ans' in if done then ans' else rest

  unfoldable pub extract_projection : Place T → ProjectionSupport T
  unfolding extract_loop
  extract_projection p = extract_loop 0 p.projection default_support
