-- ===== src/TypeVisitor/RawGeneric/Params.antt =====
-- The generic parameters that a type stores raw, read off its structure, and a visit that marks them.
use rul_checker.Prelude.{
  ℕ, zero, suc, ◌+◌, ◌<◌, ◌≤◌, ◌≡◌, refl, ap, sym, ◌∙◌, Bool, true, false, ◌||◌, List, [], ◌∷◌,
  ◌++◌, ◌==◌, some, arith, All, All-map, All-zip, set, length, length-set, replicate,
  length-replicate, get_elem?,
}
use rul_checker.Run.{ret}
use rul_checker.Rustc.{Tcx, TyKind, tuple, array, param}
use rul_checker.Rustc.Shape.{Shape, params_of}
use rul_checker.TypeVisitor.{continue, Visit, visit_all, visit_each, contains}
use rul_checker.TypeVisitor.RawGeneric.{
  RawGeneric, mark, new_raw_generic, visit_raw_kind, visit_raw,
}

abbrev pub collect : {T : Type 0} → (T → List ℕ) → List T → List ℕ
collect f [] = []
collect f (t ∷ ts) = f t ++ collect f ts

-- The parameters of the type itself, or of the components of an array or a tuple.
module _ (tcx : Tcx) where
  open tcx use {Ty, kind, super_tys}

  abbrev raw_params_kind : (Ty → List ℕ) → Ty → TyKind Ty → List ℕ
  raw_params_kind f ty (array t size) = collect f (super_tys ty)
  raw_params_kind f ty (tuple ts) = collect f (super_tys ty)
  raw_params_kind f ty (param i name) = i ∷ []
  raw_params_kind f ty k = []

  unfoldable pub raw_params : ℕ → Ty → List ℕ
  raw_params zero ty = []
  raw_params (suc n) ty = raw_params_kind (raw_params n) ty (kind ty)

-- The flags at the indices from `k` on.
abbrev pub flags_from : (ℕ → Bool) → ℕ → ℕ → List Bool
flags_from f k zero = []
flags_from f k (suc n) = f k ∷ flags_from f (suc k) n

abbrev pub set_all : List ℕ → List Bool → List Bool
set_all [] s = s
set_all (p ∷ ps) s = set_all ps (set s p true)

length-set_all : (ps : List ℕ) (s : List Bool) → length (set_all ps s) ≡ length s
length-set_all [] s = refl
length-set_all (p ∷ ps) s = length-set_all ps (set s p true) ∙ length-set s p true

set_all-append : (ps qs : List ℕ) (s : List Bool) → set_all (ps ++ qs) s ≡ set_all qs (set_all ps s)
set_all-append [] qs s = refl
set_all-append (p ∷ ps) qs s = set_all-append ps qs (set s p true)

flags_from_ext :
    (f g : ℕ → Bool) (k n : ℕ) → ((j : ℕ) → k ≤ j → f j ≡ g j) → flags_from f k n ≡ flags_from g k n
flags_from_ext f g k zero h = refl
flags_from_ext f g k (suc n) h =
    rw (h k (omega arith), flags_from_ext f g (suc k) n (λ j le. h j (omega arith)))

pub length-flags_from : (f : ℕ → Bool) (k n : ℕ) → length (flags_from f k n) ≡ n
length-flags_from f k zero = refl
length-flags_from f k (suc n) = ap suc (length-flags_from f (suc k) n)

set-flags_from :
    (f : ℕ → Bool) (i k n : ℕ)
    → set (flags_from f k n) i true ≡ flags_from (λ j. j == (i + k) || f j) k n
set-flags_from f i k zero = refl
set-flags_from f zero k (suc n) =
    let head : true ≡ (k == (0 + k) || f k) = ground arith in
    let tail = flags_from_ext f (λ j. j == (0 + k) || f j) (suc k) n (λ j le. ground arith) in
    rw (sym head, tail)
set-flags_from f (suc i) k (suc n) =
    let head : f k ≡ (k == (suc i + k) || f k) = ground arith in
    let same : (i + suc k) ≡ (suc i + k) = omega arith in
    rw (sym head, set-flags_from f i (suc k) n, same)

set_all-flags_from :
    (ps : List ℕ) (f : ℕ → Bool) (n : ℕ)
    → set_all ps (flags_from f 0 n) ≡ flags_from (λ j. contains ps j || f j) 0 n
set_all-flags_from [] f n = refl
set_all-flags_from (p ∷ ps) f n =
    let swap =
      flags_from_ext (λ j. contains ps j || (j == (p + 0) || f j))
        (λ j. (j == p || contains ps j) || f j) 0 n (λ j le. ground arith) in
    rw (set-flags_from f p 0 n, set_all-flags_from ps (λ j. j == (p + 0) || f j) n, swap)

replicate-flags_from : (k n : ℕ) → replicate n false ≡ flags_from (λ j. false) k n
replicate-flags_from k zero = refl
replicate-flags_from k (suc n) = rw (replicate-flags_from (suc k) n)

get_elem?_of_lt : (s : RawGeneric) (i : ℕ) → i < length s → (b : Bool) × (get_elem? s i ≡ some b)
get_elem?_of_lt [] i h = absurd (omega arith)
get_elem?_of_lt (b ∷ s) zero h = (b, refl)
get_elem?_of_lt (b ∷ s) (suc i) h = get_elem?_of_lt s i (omega arith)

pub mark-eq : (s : RawGeneric) (i : ℕ) → i < length s → mark s i ≡ ret (set s i true)
mark-eq [] i h = absurd (omega arith)
mark-eq (b ∷ s) zero h = refl
mark-eq (b ∷ s) (suc i) h = let found = get_elem?_of_lt s i (omega arith) in rw found.1

module _ {T : Type 0} (v : Visit T RawGeneric) (f : T → List ℕ) (n : ℕ) where
  -- The visit marks the parameters.
  abbrev Marks : T → Type 0
  Marks t = (s : RawGeneric) → length s ≡ n → v t s ≡ ret (continue, set_all (f t) s)

  visit_all-eq :
      (ts : List T) (s : RawGeneric)
      → All Marks ts
      → length s ≡ n
      → visit_all v ts s ≡ ret (continue, set_all (collect f ts) s)
  unfolding visit_all
  visit_all-eq [] s h e = refl
  visit_all-eq (t ∷ ts) s h e =
      rw (h.0 s e, set_all-append (f t) (collect f ts) s)
        (visit_all-eq ts (set_all (f t) s) h.1 (length-set_all (f t) s ∙ e))

  pub visit_each-eq :
      (ts : List T) (s : RawGeneric)
      → All Marks ts
      → length s ≡ n
      → visit_each v ts s ≡ ret (set_all (collect f ts) s)
  unfolding visit_each
  visit_each-eq [] s h e = refl
  visit_each-eq (t ∷ ts) s h e =
      rw (h.0 s e, set_all-append (f t) (collect f ts) s)
        (visit_each-eq ts (set_all (f t) s) h.1 (length-set_all (f t) s ∙ e))

module _ (tcx : Tcx) (shape : Shape tcx) where
  open tcx use {Ty, kind, super_tys}
  open shape use {rank, width}

  visit_raw_kind-eq :
      (v : Visit Ty RawGeneric) (f : Ty → List ℕ) (n : ℕ) (ty : Ty) (k : TyKind Ty)
      → All (λ i. i < n) (params_of k)
      → All (Marks v f n) (super_tys ty)
      → (s : RawGeneric) → length s ≡ n
      → visit_raw_kind tcx v ty k s ≡ ret (continue, set_all (raw_params_kind tcx f ty k) s)
  unfolding visit_raw_kind
  visit_raw_kind-eq v f n ty (array t size) below parts s e =
      visit_all-eq v f n (super_tys ty) s parts e
  visit_raw_kind-eq v f n ty (tuple ts) below parts s e =
      visit_all-eq v f n (super_tys ty) s parts e
  visit_raw_kind-eq v f n ty (param i name) below parts s e =
      let less = below.0 in rw (mark-eq s i (omega arith))
  visit_raw_kind-eq v f n ty k below parts s e = refl

  pub visit_raw-eq :
      (n fuel : ℕ) (t : Ty)
      → rank t < fuel
      → width t ≤ n
      → Marks (visit_raw tcx fuel) (raw_params tcx fuel) n t
  unfolding visit_raw raw_params
  visit_raw-eq n zero t h w s e = absurd (omega arith)
  visit_raw-eq n (suc fuel) t h w s e =
      visit_raw_kind-eq (visit_raw tcx fuel) (raw_params tcx fuel) n t (kind t)
        (All-map (λ i below. omega arith) (params_of (kind t)) (shape.width_param t))
        (All-zip (λ u r w'. visit_raw-eq n fuel u (omega arith) (omega arith)) (super_tys t)
          (shape.rank_super t) (shape.width_super t))
        s e

-- The loop over the fields of a variant, from all flags unset.
pub visit_each-flags_from :
    (tcx : Tcx) (shape : Shape tcx) (n fuel : ℕ) (ts : List tcx.Ty)
    → shape.top < fuel
    → All (λ u. shape.width u ≤ n) ts
    → visit_each (visit_raw tcx fuel) ts (new_raw_generic n)
      ≡ ret (flags_from (contains (collect (raw_params tcx fuel) ts)) 0 n)
visit_each-flags_from tcx shape n fuel ts h w =
    let top = shape.rank_top in
    let each = All-map (λ u k. visit_raw-eq tcx shape n fuel u (rank_below u) k) ts w in
    let ps = collect (raw_params tcx fuel) ts in
    let run =
      visit_each-eq (visit_raw tcx fuel) (raw_params tcx fuel) n ts (replicate n false) each
        (length-replicate n false) in
    let drop_false =
      flags_from_ext (λ j. contains ps j || false) (contains ps) 0 n
        (λ j le. ||-false (contains ps j)) in
    rw (run, replicate-flags_from 0 n, set_all-flags_from ps (λ j. false) n, drop_false)
  where
    rank_below : (u : tcx.Ty) → shape.rank u < fuel
    rank_below u = let le = shape.rank_top u in omega arith

    ||-false : (b : Bool) → (b || false) ≡ b
    ||-false b = ground arith
