-- ===== src/Sampler/Checkpoint/Prepared/Weighted.antt =====
-- `WeightedRandomSampler` of crates/rusttorch-data/src/sampler.rs at the start of an epoch.
use rust_torch.Base.{ℕ, map, subst, ◌≤◌, ◌≡◌, refl, usize_max, arith}
use rust_torch.Outcome.{ok, >>=-eq-ok}
use rust_torch.Storage.{Allocator}
use rust_torch.Rng.{Rng, IsLawful}
use rust_torch.Sampler.Validate.{validate_position}
use rust_torch.Float.{F64, HasSigns}
use rust_torch.Sampler.Weighted
use rust_torch.Sampler.Weighted.{WeightedRandomSampler, WeightedRng}
use rust_torch.Sampler.Checkpoint.Weighted as WeightedCheckpoint
use rust_torch.Sampler.Checkpoint.Weighted.{WeightedRandomSamplerState, weighted-IsResumable}
use rust_torch.Sampler.Checkpoint.{IsPrepared}

saves_weighted :
    (f : F64) {D : Type 0} (s : WeightedRandomSampler f D) (position : ℕ)
    → s.num_samples ≤ usize_max
    → position ≤ s.num_samples
    → (state : WeightedRandomSamplerState) × (WeightedCheckpoint.checkpoint_state f s position
        ≡ ok state)
unfolding WeightedCheckpoint.checkpoint_state validate_position
saves_weighted f s position h inside = (
  record {
    weight_bits = map f.to_bits s.weights;
    num_samples = s.num_samples;
    replacement = s.replacement;
    seed = s.seed;
    epoch = s.epoch;
    position = position;
  },
  ground arith,
)

-- A weighted sampler that can be built, after a call of `set_epoch`.
pub weighted-IsPrepared :
    (alloc : Allocator) (f : F64) (rng : Rng) (dist : WeightedRng f rng) (law : IsLawful rng)
    (signs : HasSigns f) (s : WeightedRandomSampler f dist.WeightedIndex) (epoch : ℕ)
    {fresh s' : WeightedRandomSampler f dist.WeightedIndex}
    → Weighted.new alloc f rng dist s.weights s.num_samples s.replacement s.seed ≡ ok fresh
    → fresh.distribution ≡ s.distribution
    → Weighted.set_epoch alloc f rng dist s epoch ≡ ok s'
    → s.num_samples ≤ usize_max
    → IsPrepared
        (Weighted.sampler alloc f rng dist)
        (WeightedCheckpoint.checkpoint alloc f rng dist)
        s'
        s.num_samples
unfolding Weighted.sampler WeightedCheckpoint.checkpoint Weighted.set_epoch
    Weighted.indices_for_epoch
weighted-IsPrepared alloc f rng dist law signs s epoch {s' = s'} built counted at h =
    let (xs, run, same) =
      >>=-eq-ok (Weighted.indices_for_epoch alloc f rng dist (record s { epoch = epoch })) _ at in
    let made : record s { epoch = epoch; indices = xs } ≡ s' = cc same in
    subst
      (λ t.
        IsPrepared (Weighted.sampler alloc f rng dist)
          (WeightedCheckpoint.checkpoint alloc f rng dist) t s.num_samples)
      made
      (record {
        resumable =
            weighted-IsResumable alloc f rng dist law signs
              (record s { epoch = epoch; indices = xs }) built counted;
        saves = λ position. saves_weighted f (record s { epoch = epoch; indices = xs }) position h;
        stands = rw run refl;
        bounded = h;
      })
