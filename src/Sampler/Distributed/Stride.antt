-- ===== src/Sampler/Distributed/Stride.antt =====
-- The two loops of `distributed_indices`: cyclic padding and the strided selection of a rank.
use native.Mathlib.Nat.{mod-mod, mod-eq-sub-mod, mod-lt}
use native.Mathlib.Decide.{dec_lt}
use rust_torch.Base.{
  ℕ, zero, suc, ◌+◌, ◌-◌, ◌*◌, ◌%◌, ◌≤◌, ◌<◌, ◌≡◌, refl, sym, ap, ◌∙◌, some, List, [], ◌∷◌, ◌++◌,
  arith, length, get_elem?, length-append, get_elem?-append_left, get_elem?-append_right,
  get_elem?-is_some,
}
use rust_torch.Error.{RustTorchError}
use rust_torch.Outcome.{ok, index_of_get_elem?}
use rust_torch.Sampler.Distributed.{pad, step_from}

-- `n` indices, the `p`-th of which is that of `base` at `p % len`.
pub record IsCyclic (base : List ℕ) (len n : ℕ) (xs : List ℕ) : Type 0 where
  pub size : length xs ≡ n
  pub at : (p : ℕ) → p < n → get_elem? xs p ≡ get_elem? base (p % len)

module _ (base : List ℕ) (len : ℕ) (pos : 0 < len) (whole : length base ≡ len) where
  IsCyclic-snoc :
      (n i : ℕ) (xs : List ℕ)
      → IsCyclic base len n xs
      → get_elem? base (n % len) ≡ some i
      → IsCyclic base len (suc n) (xs ++ i ∷ [])
  IsCyclic-snoc n i xs c e = record {
    size = omega (arith, length-append xs (i ∷ []), c.size);
    at = λ p h. elim (dec_lt p n) [
      | yes old ↦ get_elem?-append_left xs (i ∷ []) p (omega (arith, c.size)) ∙ c.at p old
      | no new ↦
          let last : p ≡ n = omega arith in
          let zeroth : p - length xs ≡ 0 = omega (arith, c.size) in
          get_elem?-append_right xs (i ∷ []) p (omega (arith, c.size)) ∙ rw (zeroth, last) (sym e)
    ];
  }

  -- The loop never reads out of bounds, and keeps the list cyclic.
  pub pad-IsCyclic :
      (rounds position : ℕ) (xs : List ℕ)
      → len ≤ position
      → IsCyclic base len position xs
      → (ys : List ℕ) × (pad rounds position len xs ≡ ok ys)
        × IsCyclic base len (position + rounds) ys
  unfolding pad
  pad-IsCyclic zero position xs h c =
      let e : position + 0 ≡ position = omega arith in (xs, refl, rw e c)
  pad-IsCyclic (suc rounds) position xs h c =
      let at = (position - len) % len in
      let inside : at < len = mod-lt (position - len) pos in
      let (i, read) = get_elem?-is_some base at (omega arith) in
      let same : position % len ≡ at = mod-eq-sub-mod h in
      let found : get_elem? xs at ≡ some i =
        c.at at (omega arith) ∙ ap (get_elem? base) (mod-mod (position - len) len) ∙ read in
      let (ys, run, c') =
        pad-IsCyclic rounds (suc position) (xs ++ i ∷ []) (omega arith)
          (IsCyclic-snoc position i xs c (ap (get_elem? base) same ∙ read)) in
      let e : suc position + rounds ≡ position + suc rounds = omega arith in
      (ys, rw (index_of_get_elem? {E = RustTorchError} xs at found) run, rw e at c')

module _ (step : ℕ) (pos : 0 < step) where
  pub get_elem?-step_from :
      (gap : ℕ) (xs : List ℕ) (k : ℕ)
      → get_elem? (step_from step gap xs) k ≡ get_elem? xs (gap + k * step)
  unfolding step_from
  get_elem?-step_from gap [] k = refl
  get_elem?-step_from zero (x ∷ xs) zero =
      let e : 0 + zero * step ≡ 0 = omega arith in sym (ap (get_elem? (x ∷ xs)) e)
  get_elem?-step_from zero (x ∷ xs) (suc k) =
      let e : suc (step - 1 + k * step) ≡ 0 + suc k * step = omega arith in
      get_elem?-step_from (step - 1) xs k ∙ ap (get_elem? (x ∷ xs)) e
  get_elem?-step_from (suc gap) (x ∷ xs) k =
      let e : suc (gap + k * step) ≡ suc gap + k * step = omega arith in
      get_elem?-step_from gap xs k ∙ ap (get_elem? (x ∷ xs)) e

  -- The length, where the list ends `short` items before a multiple of the step.
  pub length-step_from :
      (gap short : ℕ) (xs : List ℕ) (m : ℕ)
      → length xs + short ≡ m * step + gap
      → short < step
      → length (step_from step gap xs) ≡ m
  unfolding step_from
  length-step_from gap short [] zero e h = refl
  length-step_from gap short [] (suc m) e h = absurd (omega arith)
  length-step_from zero short (x ∷ xs) zero e h = absurd (omega arith)
  length-step_from zero short (x ∷ xs) (suc m) e h =
      ap suc (length-step_from (step - 1) short xs m (omega arith) h)
  length-step_from (suc gap) short (x ∷ xs) m e h = length-step_from gap short xs m (omega arith) h
