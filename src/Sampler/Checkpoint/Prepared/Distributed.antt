-- ===== src/Sampler/Checkpoint/Prepared/Distributed.antt =====
-- `DistributedSampler` of crates/rusttorch-data/src/sampler.rs at the start of an epoch.
use rust_torch.Base.{ℕ, subst, ◌≤◌, ◌≡◌, refl, usize_max, arith}
use rust_torch.Outcome.{ok, >>=-eq-ok}
use rust_torch.Storage.{Allocator}
use rust_torch.Rng.{Rng, IsLawful}
use rust_torch.Sampler.Validate.{validate_position}
use rust_torch.Sampler.Distributed
use rust_torch.Sampler.Distributed.{DistributedSampler}
use rust_torch.Sampler.Checkpoint.Distributed as DistributedCheckpoint
use rust_torch.Sampler.Checkpoint.Distributed.{DistributedSamplerState, distributed-IsResumable}
use rust_torch.Sampler.Checkpoint.{IsPrepared}

saves_distributed :
    (s : DistributedSampler) (position : ℕ)
    → s.length ≤ usize_max
    → s.replicas ≤ usize_max
    → s.rank ≤ usize_max
    → s.num_samples ≤ usize_max
    → position ≤ s.num_samples
    → (state : DistributedSamplerState) × (DistributedCheckpoint.checkpoint_state s position
        ≡ ok state)
unfolding DistributedCheckpoint.checkpoint_state validate_position
saves_distributed s position h h' k k' inside = (
  record {
    length = s.length;
    replicas = s.replicas;
    rank = s.rank;
    shuffle = s.shuffle;
    seed = s.seed;
    drop_last = s.drop_last;
    epoch = s.epoch;
    position = position;
  },
  ground arith,
)

-- A distributed sampler that can be built, after a call of `set_epoch`; its settings are of `usize`.
pub distributed-IsPrepared :
    (alloc : Allocator) (rng : Rng) (law : IsLawful rng) (s : DistributedSampler) (epoch : ℕ)
    {fresh s' : DistributedSampler}
    → Distributed.new alloc rng s.length s.replicas s.rank s.shuffle s.seed s.drop_last ≡ ok fresh
    → fresh.num_samples ≡ s.num_samples
    → Distributed.set_epoch alloc rng s epoch ≡ ok s'
    → s.length ≤ usize_max
    → s.replicas ≤ usize_max
    → s.rank ≤ usize_max
    → s.num_samples ≤ usize_max
    → IsPrepared
        (Distributed.sampler alloc rng)
        (DistributedCheckpoint.checkpoint alloc rng)
        s'
        s.num_samples
unfolding Distributed.sampler DistributedCheckpoint.checkpoint Distributed.set_epoch
    Distributed.indices_for_epoch
distributed-IsPrepared alloc rng law s epoch {s' = s'} built counted at h h' k k' =
    let (xs, run, same) =
      >>=-eq-ok (Distributed.indices_for_epoch alloc rng (record s { epoch = epoch })) _ at in
    let made : record s { epoch = epoch; indices = xs } ≡ s' = cc same in
    subst
      (λ t.
        IsPrepared (Distributed.sampler alloc rng) (DistributedCheckpoint.checkpoint alloc rng) t
          s.num_samples)
      made
      (record {
        resumable =
            distributed-IsResumable alloc rng law (record s { epoch = epoch; indices = xs }) built
              counted;
        saves = λ position.
            saves_distributed (record s { epoch = epoch; indices = xs }) position h h' k k';
        stands = rw run refl;
        bounded = k';
      })
