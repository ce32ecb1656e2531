-- ===== src/Sampler/Distributed.antt =====
-- `DistributedSampler` of crates/rusttorch-data/src/sampler.rs: the indices of one rank.
pub mod Stride
pub mod Elements
pub mod Epochs
pub mod Cover
use rust_torch.Base.{
  ℕ, zero, suc, ◌+◌, ◌-◌, ◌/◌, ◌%◌, max, Bool, not, ◌&&◌, ◌||◌, Option, none, some, List, [], ◌∷◌,
  ◌++◌, leb, ◌==◌, if◌then◌else◌, from_bool, length, take, drop, range, checked_add, checked_mul,
  String,
}
use rust_torch.Error.{plain, RustTorchError}
use rust_torch.Outcome.{Outcome, ok, ◌>>=◌, ◌>>◌, fail_if, ok_or, expect, index}
use rust_torch.Storage.{Allocator, try_vec, usize_size}
use rust_torch.Rng.{Rng}
use rust_torch.Sampler.Validate.{
  invalid_configuration, validate_positive, epoch_seed, is_multiple_of,
}
use rust_torch.Sampler.Traits.{Sampler}

pub record DistributedSampler : Type 0 where
  pub length : ℕ
  pub replicas : ℕ
  pub rank : ℕ
  pub shuffle : Bool
  pub seed : ℕ
  pub drop_last : Bool
  pub epoch : ℕ
  pub num_samples : ℕ
  pub indices : List ℕ

unfoldable pub distributed_sample_count : ℕ → ℕ → Bool → Outcome RustTorchError ℕ
distributed_sample_count length replicas drop_last =
    if drop_last
    then ok (length / replicas)
    else ok_or (checked_add (length / replicas) (from_bool (not (is_multiple_of length replicas))))
        (invalid_configuration "length" (plain "padded rank length overflows usize"))

-- `for position in length..total_size`, `rounds` of them left; reads the vector that it extends.
unfoldable pub pad : ℕ → ℕ → ℕ → List ℕ → Outcome RustTorchError (List ℕ)
pad zero position length indices = ok indices
pad (suc rounds) position length indices = do
  i ← index indices ((position - length) % length)
  pad rounds (suc position) length (indices ++ i ∷ [])

-- `step_by(step)`, with `gap` items still to pass over.
unfoldable pub step_from : ℕ → ℕ → List ℕ → List ℕ
step_from step gap [] = []
step_from step zero (x ∷ xs) = x ∷ step_from step (step - 1) xs
step_from step (suc gap) (x ∷ xs) = step_from step gap xs

module _ (alloc : Allocator) (rng : Rng) where
  -- The global sequence before the ranks take their share.
  unfoldable pub extend_global : ℕ → Bool → ℕ → Bool → ℕ → List ℕ → Outcome RustTorchError (List ℕ)
  extend_global length shuffle seed drop_last total_size indices =
      let shuffled =
        if shuffle then (rng.shuffle indices (rng.seed_from_u64 seed)).0 else indices in
      if drop_last
      then ok (take total_size shuffled)
      else if not (length == 0)
      then pad (total_size - length) length length shuffled
      else ok shuffled

  unfoldable pub distributed_indices :
      ℕ → ℕ → ℕ → Bool → ℕ → Bool → ℕ → Outcome RustTorchError (List ℕ)
  distributed_indices length replicas rank shuffle seed drop_last num_samples = do
    total_size ←
        ok_or (checked_mul num_samples replicas)
          (invalid_configuration "length" (plain "padded global length overflows usize"))
    let materialized_length = if shuffle || not drop_last then length else total_size
    indices ← try_vec alloc usize_size (max total_size materialized_length) "length"
    global ←
        extend_global length shuffle seed drop_last total_size
          (indices ++ range materialized_length)
    rank_indices ← try_vec alloc usize_size num_samples "length"
    ok (rank_indices ++ step_from replicas 0 (drop rank global))

  unfoldable pub new : ℕ → ℕ → ℕ → Bool → ℕ → Bool → Outcome RustTorchError DistributedSampler
  new length replicas rank shuffle seed drop_last = do
    validate_positive replicas "replicas"
    fail_if (leb replicas rank)
        (invalid_configuration "rank" (plain "must be less than the replica count"))
    num_samples ← distributed_sample_count length replicas drop_last
    indices ← distributed_indices length replicas rank shuffle seed drop_last num_samples
    ok (record {
      length = length;
      replicas = replicas;
      rank = rank;
      shuffle = shuffle;
      seed = seed;
      drop_last = drop_last;
      epoch = 0;
      num_samples = num_samples;
      indices = indices;
    })

  unfoldable pub indices_for_epoch : DistributedSampler → Outcome RustTorchError (List ℕ)
  indices_for_epoch s =
      expect
        (distributed_indices s.length s.replicas s.rank s.shuffle (epoch_seed s.seed s.epoch)
          s.drop_last s.num_samples)
        "distributed sampler dimensions were validated during construction"

  unfoldable pub set_epoch : DistributedSampler → ℕ → Outcome RustTorchError DistributedSampler
  set_epoch s epoch = do
    let next = record s { epoch = epoch }
    indices ← indices_for_epoch next
    ok (record next { indices = indices })

  unfoldable pub sampler : Sampler DistributedSampler
  unfolding indices_for_epoch set_epoch
  sampler = record {
    iter = indices_for_epoch;
    exact_len = λ s. some s.num_samples;
    epoch = λ s. s.epoch;
    set_epoch = set_epoch;
  }

unfoldable pub len : DistributedSampler → ℕ
len s = s.num_samples

unfoldable pub is_empty : DistributedSampler → Bool
is_empty s = s.num_samples == 0

-- `num_samples` is the length of the owned indices at the start of an epoch, so this does not wrap.
unfoldable pub position : DistributedSampler → ℕ
position s = s.num_samples - length s.indices

-- `Iterator::next`, of the owned indices.
unfoldable pub next : DistributedSampler → Option ℕ × DistributedSampler
next s = elim s.indices [ [] ↦ (none, s) | i ∷ rest ↦ (some i, record s { indices = rest }) ]
