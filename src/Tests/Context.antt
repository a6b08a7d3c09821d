-- ===== src/Tests/Context.antt =====
-- A context of two blocks and one local.
use rul_checker.Prelude.{ℕ, zero, suc, ◌<◌, ◌≡◌, ◌≢◌, refl, [], ◌∷◌, none, arith}
use rul_checker.Run.{ret}
use rul_checker.Ownership.{owned}
use rul_checker.Slice.{IcxSlice, init, declared}
use rul_checker.Slice.Context.{
  IntroFlowContext, new_context, derive_from_pre_node, derive_from_icx_slice, new_in, new_out,
}
use rul_checker.Slice.Context.Trips.{
  Has, derive_from_icx_slice-new_out, derive_from_pre_node-new_in,
}

abbrev fresh : IntroFlowContext ℕ ℕ
fresh = new_context 2 1

abbrev sl : IcxSlice ℕ ℕ
sl = record {
  taint = [] ∷ [];
  var = init 7 ∷ [];
  len = 1 ∷ [];
  ty = none ∷ [];
  layout = (owned ∷ []) ∷ [];
}

has : (b : ℕ) → b < 2 → Has fresh b
unfolding new_context
has zero h = record {
  taint_pair = record { i = [] ∷ []; o = [] ∷ [] };
  has_taint = refl;
  var_pair = record { i = declared ∷ []; o = declared ∷ [] };
  has_var = refl;
  len_pair = record { i = 0 ∷ []; o = 0 ∷ [] };
  has_len = refl;
  ty_pair = record { i = none ∷ []; o = none ∷ [] };
  has_ty = refl;
  layout_pair = record { i = [] ∷ []; o = [] ∷ [] };
  has_layout = refl;
}
has (suc zero) h = record {
  taint_pair = record { i = [] ∷ []; o = [] ∷ [] };
  has_taint = refl;
  var_pair = record { i = declared ∷ []; o = declared ∷ [] };
  has_var = refl;
  len_pair = record { i = 0 ∷ []; o = 0 ∷ [] };
  has_len = refl;
  ty_pair = record { i = none ∷ []; o = none ∷ [] };
  has_ty = refl;
  layout_pair = record { i = [] ∷ []; o = [] ∷ [] };
  has_layout = refl;
}
has (suc (suc b)) h = absurd (omega arith)

apart_0_1 : 0 ≢ suc 0
apart_0_1 h = omega arith

derive_from_icx_slice-new_out_example :
    (icx : IntroFlowContext ℕ ℕ) × (derive_from_icx_slice fresh sl 0 ≡ ret icx)
    × (new_out icx 0 ≡ ret sl)
    × (new_in icx 0 ≡ new_in fresh 0)
    × (new_out icx 1 ≡ new_out fresh 1)
derive_from_icx_slice-new_out_example =
    derive_from_icx_slice-new_out fresh sl 0 1 (has 0 (omega arith)) apart_0_1

derive_from_pre_node-new_in_example :
    (icx : IntroFlowContext ℕ ℕ) × (derive_from_pre_node fresh 0 1 ≡ ret icx)
    × (new_in icx 1 ≡ new_out fresh 0)
derive_from_pre_node-new_in_example =
    derive_from_pre_node-new_in fresh 0 1 (has 0 (omega arith)) (has 1 (omega arith))
