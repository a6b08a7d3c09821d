-- ===== src/Projection/Shapes.antt =====
-- Which projections the analysis follows.
use rul_checker.Prelude.{
  ℕ, suc, ◌<◌, ◌≡◌, refl, inl, inr, ◌⊎◌, length-append, Bool, true, false, not, length, List, [],
  ◌∷◌, some, arith,
}
use rul_checker.Rustc.Mir.{
  Place, ProjectionElem, field_elem, deref_elem, downcast_elem, index_elem, constant_index,
  subslice,
}
use rul_checker.Projection.{
  ProjectionSupport, extract_projection, extract_loop, extract_elem, pf_push, give_up,
  default_support,
}

module _ {T : Type 0} where
  -- The whole local, one field, a dereference, a downcast, or one field of a downcast.
  abbrev pub is_simple : List (ProjectionElem T) → Bool
  is_simple [] = true
  is_simple (field_elem f t ∷ []) = true
  is_simple (deref_elem ∷ []) = true
  is_simple (downcast_elem v ∷ []) = true
  is_simple (downcast_elem v ∷ field_elem f t ∷ []) = true
  is_simple _ = false

  -- The support that a simple projection has.
  abbrev pub simple_support : List (ProjectionElem T) → ProjectionSupport T
  simple_support (field_elem f t ∷ []) = record default_support { pf_vec = (f, t) ∷ [] }
  simple_support (deref_elem ∷ []) = record default_support { deref = true }
  simple_support (downcast_elem v ∷ []) = record default_support { downcast = some v }
  simple_support (downcast_elem v ∷ field_elem f t ∷ []) = record default_support {
    pf_vec = (f, t) ∷ [];
    downcast = some v;
  }
  simple_support _ = default_support

  -- After a field or a dereference no element is followed: the loop ends.
  late :
      (idx : ℕ) (e : ProjectionElem T) (es : List (ProjectionElem T)) (ans : ProjectionSupport T)
      → ((0 < length ans.pf_vec) ⊎ (ans.deref ≡ true))
      → (extract_loop (suc idx) (e ∷ es) ans).unsupport ≡ true
  unfolding extract_loop extract_elem pf_push give_up
  late idx (field_elem f t) es ans h = ground (arith, length-append ans.pf_vec ((f, t) ∷ []))
  late idx deref_elem es ans h = ground arith
  late idx (downcast_elem v) es ans h = ground arith
  late idx index_elem es ans h = refl
  late idx constant_index es ans h = refl
  late idx subslice es ans h = refl

  extract_loop-unsupport :
      (es : List (ProjectionElem T))
      → (extract_loop 0 es default_support).unsupport ≡ not (is_simple es)
  unfolding extract_loop extract_elem pf_push give_up
  extract_loop-unsupport [] = refl
  extract_loop-unsupport (index_elem ∷ es) = refl
  extract_loop-unsupport (constant_index ∷ es) = refl
  extract_loop-unsupport (subslice ∷ es) = refl
  extract_loop-unsupport (field_elem f t ∷ []) = refl
  extract_loop-unsupport (field_elem f t ∷ e ∷ es) = late 0 e es _ (inl (omega arith))
  extract_loop-unsupport (deref_elem ∷ []) = refl
  extract_loop-unsupport (deref_elem ∷ e ∷ es) = late 0 e es _ (inr refl)
  extract_loop-unsupport (downcast_elem v ∷ []) = refl
  extract_loop-unsupport (downcast_elem v ∷ field_elem f t ∷ []) = refl
  extract_loop-unsupport (downcast_elem v ∷ field_elem f t ∷ e ∷ es) =
      late 1 e es _ (inl (omega arith))
  extract_loop-unsupport (downcast_elem v ∷ deref_elem ∷ es) = refl
  extract_loop-unsupport (downcast_elem v ∷ downcast_elem w ∷ es) = refl
  extract_loop-unsupport (downcast_elem v ∷ index_elem ∷ es) = refl
  extract_loop-unsupport (downcast_elem v ∷ constant_index ∷ es) = refl
  extract_loop-unsupport (downcast_elem v ∷ subslice ∷ es) = refl

  -- The analysis gives up on a place exactly if its projection is not simple.
  pub extract_projection-unsupport :
      (p : Place T) → (extract_projection p).unsupport ≡ not (is_simple p.projection)
  unfolding extract_projection
  extract_projection-unsupport p = extract_loop-unsupport p.projection

  extract_loop-simple :
      (es : List (ProjectionElem T))
      → is_simple es ≡ true
      → extract_loop 0 es default_support ≡ simple_support es
  unfolding extract_loop extract_elem pf_push give_up
  extract_loop-simple [] h = refl
  extract_loop-simple (field_elem f t ∷ []) h = refl
  extract_loop-simple (deref_elem ∷ []) h = refl
  extract_loop-simple (downcast_elem v ∷ []) h = refl
  extract_loop-simple (downcast_elem v ∷ field_elem f t ∷ []) h = refl
  extract_loop-simple (field_elem f t ∷ e ∷ es) h = cc
  extract_loop-simple (deref_elem ∷ e ∷ es) h = cc
  extract_loop-simple (downcast_elem v ∷ field_elem f t ∷ e ∷ es) h = cc
  extract_loop-simple (downcast_elem v ∷ deref_elem ∷ es) h = cc
  extract_loop-simple (downcast_elem v ∷ downcast_elem w ∷ es) h = cc
  extract_loop-simple (downcast_elem v ∷ index_elem ∷ es) h = cc
  extract_loop-simple (downcast_elem v ∷ constant_index ∷ es) h = cc
  extract_loop-simple (downcast_elem v ∷ subslice ∷ es) h = cc
  extract_loop-simple (index_elem ∷ es) h = cc
  extract_loop-simple (constant_index ∷ es) h = cc
  extract_loop-simple (subslice ∷ es) h = cc

  -- A place that the analysis does not give up on has the support of its simple projection: its only
  -- field, its variant, and whether it is a dereference.
  pub extract_projection-simple :
      (p : Place T)
      → (extract_projection p).unsupport ≡ false
      → extract_projection p ≡ simple_support p.projection
  unfolding extract_projection
  extract_projection-simple p h =
      extract_loop-simple p.projection (ground (arith, extract_projection-unsupport p))
