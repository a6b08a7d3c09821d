-- ===== src/Prelude/Texts.antt =====
-- Texts, under names of their own where lists and numbers have the same.
pub use Prim.Native.String.{String, len, slice}
pub use text.Mathlib.Text.{starts_with}
use Prim.Native.String.{String}
use text.Mathlib.Text.{◌==◌}
use mathlib.Core.Bool.{Bool}

infix 50 ◌==str◌
abbrev pub ◌==str◌ : String → String → Bool
s ==str t = s == t
