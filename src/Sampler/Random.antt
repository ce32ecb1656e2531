-- ===== src/Sampler/Random.antt =====
-- `RandomSampler` of crates/rusttorch-data/src/sampler.rs, with `random_indices`.
pub mod Balance
pub mod Epochs
use rust_torch.Base.{
  ℕ, zero, suc, ◌-◌, Option, some, List, [], ◌∷◌, ◌++◌, ltb, if◌then◌else◌, length, take, range,
  String, ◌≡◌, none,
}
use rust_torch.Error.{RustTorchError}
use rust_torch.Outcome.{Outcome, ok, panic, ◌>>=◌, ◌>>◌, expect}
use rust_torch.Storage.{Allocator, try_vec, usize_size}
use rust_torch.Rng.{Rng}
use rust_torch.Sampler.Validate.{validate_positive, epoch_seed}
use rust_torch.Sampler.Traits.{Sampler}

pub data Replacement : Type 0 where
  with_replacement without_replacement : Replacement

pub record RandomSampler : Type 0 where
  pub length : ℕ
  pub num_samples : ℕ
  pub replacement : Replacement
  pub seed : ℕ
  pub epoch : ℕ
  pub indices : List ℕ

module _ (alloc : Allocator) (rng : Rng) where
  -- `(0..num_samples).map(|_| rng.gen_range(0..length))`.
  unfoldable pub draws : ℕ → ℕ → rng.State → List ℕ
  draws zero length state = []
  draws (suc n) length state =
      let (index, state') = rng.gen_range 0 length state in index ∷ draws n length state'

  -- The `while` loop. Each round adds an index, so fuel above `num_samples` is enough.
  unfoldable pub permutations :
      ℕ → ℕ → List ℕ → List ℕ → rng.State → Outcome RustTorchError (List ℕ)
  permutations zero num_samples permutation output state = panic "out of fuel"
  permutations (suc fuel) num_samples permutation output state =
      let (shuffled, state') = rng.shuffle permutation state in
      let remaining = num_samples - length output in
      let rest =
        permutations fuel num_samples shuffled (output ++ take remaining shuffled) state' in
      if ltb (length output) num_samples then rest else ok output

  unfoldable pub random_indices : ℕ → ℕ → Replacement → ℕ → Outcome RustTorchError (List ℕ)
  random_indices length num_samples with_replacement seed = do
    output ← try_vec alloc usize_size num_samples "num_samples"
    ok (output ++ draws num_samples length (rng.seed_from_u64 seed))
  random_indices length num_samples without_replacement seed = do
    permutation ← try_vec alloc usize_size length "length"
    output ← try_vec alloc usize_size num_samples "num_samples"
    permutations (suc num_samples) num_samples (permutation ++ range length) output
        (rng.seed_from_u64 seed)

  unfoldable pub build : ℕ → ℕ → Replacement → ℕ → Outcome RustTorchError RandomSampler
  build length num_samples replacement seed = do
    validate_positive length "length"
    validate_positive num_samples "num_samples"
    indices ← random_indices length num_samples replacement seed
    ok (record {
      length = length;
      num_samples = num_samples;
      replacement = replacement;
      seed = seed;
      epoch = 0;
      indices = indices;
    })

  unfoldable pub new : ℕ → ℕ → Outcome RustTorchError RandomSampler
  new length seed = build length length without_replacement seed

  unfoldable pub indices_for_epoch : RandomSampler → Outcome RustTorchError (List ℕ)
  indices_for_epoch s =
      expect (random_indices s.length s.num_samples s.replacement (epoch_seed s.seed s.epoch))
        "sampler storage dimensions were validated during construction"

  unfoldable pub set_epoch : RandomSampler → ℕ → Outcome RustTorchError RandomSampler
  set_epoch s epoch = do
    let next = record s { epoch = epoch }
    indices ← indices_for_epoch next
    ok (record next { indices = indices })

  unfoldable pub sampler : Sampler RandomSampler
  unfolding indices_for_epoch set_epoch
  sampler = record {
    iter = indices_for_epoch;
    exact_len = λ s. some s.num_samples;
    epoch = λ s. s.epoch;
    set_epoch = set_epoch;
  }

-- `Iterator::next`, of the owned indices.
unfoldable pub next : RandomSampler → Option ℕ × RandomSampler
next s = elim s.indices [
  | [] ↦ (none, s)
  | index ∷ rest ↦ (some index, record s { indices = rest })
]
