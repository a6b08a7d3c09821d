-- ===== src/Tests/Places.antt =====
-- Projections of the sample's places.
use rul_checker.Prelude.{ℕ, ◌≡◌, false, not, [], ◌∷◌}
use rul_checker.Rustc.Mir.{Place, field_elem, downcast_elem}
use rul_checker.Projection.{extract_projection}
use rul_checker.Projection.Shapes.{
  is_simple, simple_support, extract_projection-unsupport, extract_projection-simple,
}

-- (_6 as variant 0).0 : 1
abbrev variant_field : Place ℕ
variant_field = record { local = 6; projection = downcast_elem 0 ∷ field_elem 0 1 ∷ [] }

-- _6.0.1
abbrev nested : Place ℕ
nested = record { local = 6; projection = field_elem 0 1 ∷ field_elem 1 2 ∷ [] }

extract_projection-unsupport_example :
    (extract_projection nested).unsupport ≡ not (is_simple nested.projection)
extract_projection-unsupport_example = extract_projection-unsupport nested

extract_projection-simple_example :
    extract_projection variant_field ≡ simple_support variant_field.projection
extract_projection-simple_example = extract_projection-simple variant_field supported
  where
    supported : (extract_projection variant_field).unsupport ≡ false
    supported = extract_projection-unsupport variant_field
