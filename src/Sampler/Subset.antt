-- ===== src/Sampler/Subset.antt =====
-- `SubsetRandomSampler` of crates/rusttorch-data/src/sampler.rs, with `shuffled_copy`.
use rust_torch.Base.{ℕ, Option, none, some, List, [], ◌∷◌, ◌++◌, length}
use rust_torch.Error.{RustTorchError}
use rust_torch.Outcome.{Outcome, ok, ◌>>=◌, expect}
use rust_torch.Storage.{Allocator, try_vec, usize_size}
use rust_torch.Rng.{Rng}
use rust_torch.Sampler.Validate.{epoch_seed}
use rust_torch.Sampler.Traits.{Sampler}

pub record SubsetRandomSampler : Type 0 where
  pub source : List ℕ
  pub seed : ℕ
  pub epoch : ℕ
  pub indices : List ℕ

module _ (alloc : Allocator) (rng : Rng) where
  unfoldable pub shuffled_copy : List ℕ → ℕ → Outcome RustTorchError (List ℕ)
  shuffled_copy indices seed = do
    shuffled ← try_vec alloc usize_size (length indices) "indices"
    ok (rng.shuffle (shuffled ++ indices) (rng.seed_from_u64 seed)).0

  unfoldable pub new : List ℕ → ℕ → Outcome RustTorchError SubsetRandomSampler
  new indices seed = do
    shuffled ← shuffled_copy indices seed
    ok (record { source = indices; seed = seed; epoch = 0; indices = shuffled })

  unfoldable pub indices_for_epoch : SubsetRandomSampler → Outcome RustTorchError (List ℕ)
  indices_for_epoch s =
      expect (shuffled_copy s.source (epoch_seed s.seed s.epoch))
        "sampler storage dimensions were validated during construction"

  unfoldable pub set_epoch : SubsetRandomSampler → ℕ → Outcome RustTorchError SubsetRandomSampler
  set_epoch s epoch = do
    let next = record s { epoch = epoch }
    indices ← indices_for_epoch next
    ok (record next { indices = indices })

  unfoldable pub sampler : Sampler SubsetRandomSampler
  unfolding indices_for_epoch set_epoch
  sampler = record {
    iter = indices_for_epoch;
    exact_len = λ s. some (length s.source);
    epoch = λ s. s.epoch;
    set_epoch = set_epoch;
  }

-- `Iterator::next`, of the owned indices.
unfoldable pub next : SubsetRandomSampler → Option ℕ × SubsetRandomSampler
next s = elim s.indices [
  | [] ↦ (none, s)
  | index ∷ rest ↦ (some index, record s { indices = rest })
]
