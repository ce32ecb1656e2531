-- ===== src/Sampler/Weighted.antt =====
-- `WeightedRandomSampler` of crates/rusttorch-data/src/sampler.rs, with `weighted_indices`.
-- `WeightedIndex` and `Open01` are of the `rand` crate: their samples are arguments.
pub mod Positions
pub mod Selection
pub mod Epochs
use Prim.Native.Nat.{Ordering, compare}
use rust_torch.Base.{
  ℕ, zero, suc, ◌-◌, Bool, true, false, not, ◌&&◌, ◌||◌, Option, none, some, List, [], ◌∷◌, ◌++◌,
  map, ltb, ◌==◌, if◌then◌else◌, length, take, String,
}
use rust_torch.Error.{Arg, plain, RustTorchError}
use rust_torch.Outcome.{Outcome, ok, err, panic, ◌>>=◌, ◌>>◌, fail_if, expect}
use rust_torch.Storage.{Allocator, try_vec, usize_size, pair_size}
use rust_torch.Rng.{Rng}
use rust_torch.Float.{F64}
use rust_torch.Sampler.Validate.{invalid_configuration, validate_positive, epoch_seed}
use rust_torch.Sampler.Traits.{Sampler}

-- `WeightedIndex<f64>` with its `sample`, and the sample of `Open01`.
pub record WeightedRng (f : F64) (rng : Rng) : Type 1 where
  pub WeightedIndex : Type 0
  pub weighted_index : List f.Float → Outcome String WeightedIndex
  pub sample : WeightedIndex → rng.State → ℕ × rng.State
  pub open01 : rng.State → f.Float × rng.State

module _ (f : F64) where
  unfoldable pub any : (f.Float → Bool) → List f.Float → Bool
  any p [] = false
  any p (x ∷ xs) = p x || any p xs

  unfoldable pub validate_weights : List f.Float → Outcome RustTorchError (Unit {0})
  validate_weights weights = do
    fail_if (length weights == 0) (invalid_configuration "weights" (plain "must not be empty"))
    fail_if (any (λ w. not (f.is_finite w)) weights)
        (invalid_configuration "weights" (plain "must be finite"))
    fail_if (any (λ w. f.lt w f.zero) weights)
        (invalid_configuration "weights" (plain "must be nonnegative"))
    let total = f.sum weights
    fail_if (not (f.is_finite total) || not (f.lt f.zero total))
        (invalid_configuration "weights" (plain "must have a positive finite total"))

  -- The comparison of the sort: keys falling, then indices rising.
  unfoldable pub precedes : ℕ × f.Float → ℕ × f.Float → Bool
  precedes (i, key) (j, key') = elim (f.total_cmp key' key) [
    | Ordering.lt ↦ true
    | Ordering.eq ↦ ltb i j
    | Ordering.gt ↦ false
  ]

  -- `sort_unstable_by`. The comparison is strict and total, so the result is determined.
  unfoldable pub insert_by : ℕ × f.Float → List (ℕ × f.Float) → List (ℕ × f.Float)
  insert_by x [] = x ∷ []
  insert_by x (y ∷ ys) = if precedes x y then x ∷ y ∷ ys else y ∷ insert_by x ys

  unfoldable pub sort_by : List (ℕ × f.Float) → List (ℕ × f.Float)
  sort_by [] = []
  sort_by (x ∷ xs) = insert_by x (sort_by xs)

  -- `enumerate().filter_map(...)` over the weights that are zero, from index `i`.
  unfoldable pub zero_weights : ℕ → List f.Float → List ℕ
  zero_weights i [] = []
  zero_weights i (w ∷ ws) =
      let rest = zero_weights (suc i) ws in if f.eq w f.zero then i ∷ rest else rest

pub record WeightedRandomSampler (f : F64) (Distribution : Type 0) : Type 0 where
  pub weights : List f.Float
  pub num_samples : ℕ
  pub replacement : Bool
  pub seed : ℕ
  pub epoch : ℕ
  pub distribution : Distribution
  pub indices : List ℕ

module _ (alloc : Allocator) (f : F64) (rng : Rng) (dist : WeightedRng f rng) where
  unfoldable pub samples : ℕ → dist.WeightedIndex → rng.State → List ℕ
  samples zero d state = []
  samples (suc n) d state = let (index, state') = dist.sample d state in index ∷ samples n d state'

  -- The keyed entries of the positive weights, from index `i`, and the generator after the draws.
  unfoldable pub keyed : ℕ → List f.Float → rng.State → List (ℕ × f.Float) × rng.State
  keyed i [] state = ([], state)
  keyed i (w ∷ ws) state =
      let (draw, state') = dist.open01 state in
      let key = f.sub (f.ln w) (f.ln (f.neg (f.ln draw))) in
      let (more, after) = keyed (suc i) ws state' in
      let without = keyed (suc i) ws state in
      if f.lt f.zero w then ((i, key) ∷ more, after) else without

  -- Zero weights fill what the positive ones leave.
  unfoldable pub fill_zero : List f.Float → ℕ → List ℕ → rng.State → Outcome RustTorchError (List ℕ)
  fill_zero weights num_samples output state =
      if ltb (length output) num_samples
      then (do
        zeros ← try_vec alloc usize_size (length weights) "weights"
        let shuffled = (rng.shuffle (zeros ++ zero_weights f 0 weights) state).0
        ok (output ++ take (num_samples - length output) shuffled))
      else ok output

  unfoldable pub weighted_indices :
      List f.Float → ℕ → Bool → ℕ → dist.WeightedIndex → Outcome RustTorchError (List ℕ)
  weighted_indices weights num_samples true seed d = do
    output ← try_vec alloc usize_size num_samples "num_samples"
    ok (output ++ samples num_samples d (rng.seed_from_u64 seed))
  weighted_indices weights num_samples false seed d = do
    positive ← try_vec {A = ℕ × f.Float} alloc pair_size (length weights) "weights"
    let (entries, state) = keyed 0 weights (rng.seed_from_u64 seed)
    output ← try_vec alloc usize_size num_samples "num_samples"
    fill_zero weights num_samples
        (output ++ map (λ e. e.0) (take num_samples (sort_by f (positive ++ entries)))) state

  unfoldable pub new :
      List f.Float
      → ℕ
      → Bool
      → ℕ
      → Outcome RustTorchError (WeightedRandomSampler f dist.WeightedIndex)
  new weights num_samples replacement seed = do
    validate_weights f weights
    validate_positive num_samples "num_samples"
    fail_if (not replacement && ltb (length weights) num_samples) (
        invalid_configuration "num_samples"
          (plain "must not exceed the number of weights without replacement"))
    distribution ← elim (dist.weighted_index weights) [
      | ok d ↦ ok d
      | err error ↦ err (
          invalid_configuration "weights" (record {
            template = "cannot form a distribution: {error}";
            arguments = Arg.text error ∷ [];
          }))
      | panic m ↦ panic m
    ]
    indices ← weighted_indices weights num_samples replacement seed distribution
    ok (record {
      weights = weights;
      num_samples = num_samples;
      replacement = replacement;
      seed = seed;
      epoch = 0;
      distribution = distribution;
      indices = indices;
    })

  unfoldable pub indices_for_epoch :
      WeightedRandomSampler f dist.WeightedIndex → Outcome RustTorchError (List ℕ)
  indices_for_epoch s =
      expect
        (weighted_indices s.weights s.num_samples s.replacement (epoch_seed s.seed s.epoch)
          s.distribution)
        "sampler storage dimensions were validated during construction"

  unfoldable pub set_epoch :
      WeightedRandomSampler f dist.WeightedIndex
      → ℕ
      → Outcome RustTorchError (WeightedRandomSampler f dist.WeightedIndex)
  set_epoch s epoch = do
    let next = record s { epoch = epoch }
    indices ← indices_for_epoch next
    ok (record next { indices = indices })

  unfoldable pub sampler : Sampler (WeightedRandomSampler f dist.WeightedIndex)
  unfolding indices_for_epoch set_epoch
  sampler = record {
    iter = indices_for_epoch;
    exact_len = λ s. some s.num_samples;
    epoch = λ s. s.epoch;
    set_epoch = set_epoch;
  }

-- `Iterator::next`, of the owned indices.
unfoldable pub next :
    {f : F64} {D : Type 0} → WeightedRandomSampler f D → Option ℕ × WeightedRandomSampler f D
next s = elim s.indices [
  | [] ↦ (none, s)
  | index ∷ rest ↦ (some index, record s { indices = rest })
]
