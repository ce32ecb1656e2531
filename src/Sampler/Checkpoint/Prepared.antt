-- ===== src/Sampler/Checkpoint/Prepared.antt =====
-- The samplers of crates/rusttorch-data/src/sampler.rs at the start of an epoch: each saves every
-- position of its sequence, and resumes it.
pub mod Subset
pub mod Distributed
pub mod Weighted
use rust_torch.Base.{ℕ, subst, ◌≤◌, ◌≡◌, refl, usize_max, arith}
use rust_torch.Outcome.{ok, >>=-eq-ok}
use rust_torch.Storage.{Allocator}
use rust_torch.Rng.{Rng, IsLawful}
use rust_torch.Sampler.Validate.{validate_position}
use rust_torch.Sampler.Sequential
use rust_torch.Sampler.Sequential.{SequentialSampler}
use rust_torch.Sampler.Random
use rust_torch.Sampler.Random.{RandomSampler, build}
use rust_torch.Sampler.Checkpoint.{IsPrepared}
use rust_torch.Sampler.Checkpoint.Sequential as SequentialCheckpoint
use rust_torch.Sampler.Checkpoint.Sequential.{SequentialSamplerState, sequential-IsResumable}
use rust_torch.Sampler.Checkpoint.Random as RandomCheckpoint
use rust_torch.Sampler.Checkpoint.Random.{RandomSamplerState, stored, random-IsResumable}

saves_sequential :
    (s : SequentialSampler) (position : ℕ)
    → s.length ≤ usize_max
    → position ≤ s.length
    → (state : SequentialSamplerState) × (SequentialCheckpoint.checkpoint_state s position
        ≡ ok state)
unfolding SequentialCheckpoint.checkpoint_state validate_position
saves_sequential s position h inside =
    (record { length = s.length; epoch = s.epoch; position = position }, ground arith)

pub sequential-IsPrepared :
    (s : SequentialSampler) (epoch : ℕ)
    → s.length ≤ usize_max
    → IsPrepared Sequential.sampler SequentialCheckpoint.checkpoint
        (Sequential.set_epoch s epoch)
        s.length
unfolding Sequential.sampler SequentialCheckpoint.checkpoint Sequential.set_epoch
sequential-IsPrepared s epoch h = record {
  resumable = sequential-IsResumable (Sequential.set_epoch s epoch);
  saves = λ position. saves_sequential (Sequential.set_epoch s epoch) position h;
  stands = refl;
  bounded = h;
}

saves_random :
    (s : RandomSampler) (position : ℕ)
    → s.length ≤ usize_max
    → s.num_samples ≤ usize_max
    → position ≤ s.num_samples
    → (state : RandomSamplerState) × (RandomCheckpoint.checkpoint_state s position ≡ ok state)
unfolding RandomCheckpoint.checkpoint_state validate_position
saves_random s position h k inside = (
  record {
    length = s.length;
    num_samples = s.num_samples;
    replacement = stored s.replacement;
    seed = s.seed;
    epoch = s.epoch;
    position = position;
  },
  ground arith,
)

-- A random sampler that can be built, after a call of `set_epoch`.
pub random-IsPrepared :
    (alloc : Allocator) (rng : Rng) (law : IsLawful rng) (s : RandomSampler) (epoch : ℕ)
    {fresh s' : RandomSampler}
    → build alloc rng s.length s.num_samples s.replacement s.seed ≡ ok fresh
    → Random.set_epoch alloc rng s epoch ≡ ok s'
    → s.length ≤ usize_max
    → s.num_samples ≤ usize_max
    → IsPrepared (Random.sampler alloc rng) (RandomCheckpoint.checkpoint alloc rng) s' s.num_samples
unfolding Random.sampler RandomCheckpoint.checkpoint Random.set_epoch Random.indices_for_epoch
random-IsPrepared alloc rng law s epoch {s' = s'} built at h k =
    let (xs, run, same) =
      >>=-eq-ok (Random.indices_for_epoch alloc rng (record s { epoch = epoch })) _ at in
    let made : record s { epoch = epoch; indices = xs } ≡ s' = cc same in
    subst
      (λ t.
        IsPrepared (Random.sampler alloc rng) (RandomCheckpoint.checkpoint alloc rng) t
          s.num_samples)
      made
      (record {
        resumable =
            random-IsResumable alloc rng law (record s { epoch = epoch; indices = xs }) built;
        saves = λ position. saves_random (record s { epoch = epoch; indices = xs }) position h k;
        stands = rw run refl;
        bounded = k;
      })
