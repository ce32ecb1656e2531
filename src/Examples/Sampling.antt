-- ===== src/Examples/Sampling.antt =====
-- Runs of the batch sampler and of the samplers in an epoch.
use rust_torch.Base.{
  ℕ, zero, suc, ◌<◌, ◌≡◌, refl, Bool, true, false, some, List, [], ◌∷◌, arith, flatten, length, All,
  get_elem?, Perm,
}
use rust_torch.Outcome.{ok}
use rust_torch.Sampler.Validate.{validate_positive, validate_batch_size, epoch_seed}
use rust_torch.Sampler.Batch
use rust_torch.Sampler.Batch.{BatchSampler, collect, exact_len}
use rust_torch.Sampler.Batch.Slices.{batches, IsBatch}
use rust_torch.Sampler.Batch.Partition.{collect_partitions}
use rust_torch.Sampler.Random
use rust_torch.Sampler.Random.{RandomSampler, without_replacement}
use rust_torch.Sampler.Random.Epochs.{Drawn, set_epoch-Drawn}
use rust_torch.Sampler.Weighted
use rust_torch.Sampler.Weighted.{WeightedRandomSampler}
use rust_torch.Sampler.Weighted.Positions.{IsSelection}
use rust_torch.Sampler.Weighted.Epochs.{set_epoch-IsSelection}
use rust_torch.Sampler.Subset
use rust_torch.Sampler.Subset.{SubsetRandomSampler}
use rust_torch.Sampler.Checkpoint.Subset.{set_epoch-perm}
use rust_torch.Sampler.Distributed
use rust_torch.Sampler.Distributed.{DistributedSampler}
use rust_torch.Sampler.Distributed.Elements.{order, CountBounds}
use rust_torch.Sampler.Distributed.Epochs.{IsShare, set_epoch-IsShare}
use rust_torch.Sampler.Distributed.Cover.{assigned, assigned_once}
use rust_torch.Storage.{try_vec}
use rust_torch.Examples.Instances.{
  granting, reversing, reversing-IsLawful, quarters, quarters-HasSigns, by_turns,
}

abbrev pairs : BatchSampler (List ℕ)
pairs = record { sampler = 5 ∷ 6 ∷ 7 ∷ 8 ∷ 9 ∷ []; batch_size = 2; drop_last = false }

pairs-new : Batch.new granting (5 ∷ 6 ∷ 7 ∷ 8 ∷ 9 ∷ []) 2 false ≡ ok pairs
unfolding Batch.new Batch.from_validated validate_batch_size validate_positive try_vec
pairs-new = refl

collect_partitions_example :
    (collect granting 6 pairs ≡ ok (batches {A = ℕ} 2 false (5 ∷ 6 ∷ 7 ∷ 8 ∷ 9 ∷ [])))
    × (exact_len pairs ≡ some (length (batches {A = ℕ} 2 false (5 ∷ 6 ∷ 7 ∷ 8 ∷ 9 ∷ []))))
    × (flatten (batches {A = ℕ} 2 false (5 ∷ 6 ∷ 7 ∷ 8 ∷ 9 ∷ [])) ≡ (5 ∷ 6 ∷ 7 ∷ 8 ∷ 9 ∷ []))
    × All (IsBatch 2 false) (batches {A = ℕ} 2 false (5 ∷ 6 ∷ 7 ∷ 8 ∷ 9 ∷ []))
collect_partitions_example = collect_partitions granting (5 ∷ 6 ∷ 7 ∷ 8 ∷ 9 ∷ []) 2 false pairs-new

abbrev pub drawn : RandomSampler
drawn = record {
  length = 3;
  num_samples = 5;
  replacement = without_replacement;
  seed = 7;
  epoch = 0;
  indices = 2 ∷ 1 ∷ 0 ∷ 0 ∷ 1 ∷ [];
}

pub drawn-build : Random.build granting reversing 3 5 without_replacement 7 ≡ ok drawn
unfolding Random.build Random.random_indices Random.permutations validate_positive try_vec
drawn-build = refl

set_epoch-Drawn_example :
    (xs : List ℕ) × (Random.set_epoch granting reversing drawn 2
      ≡ ok (record drawn { epoch = 2; indices = xs }))
    × ((Random.sampler granting reversing).iter (record drawn { epoch = 2; indices = xs }) ≡ ok xs)
    × Drawn without_replacement 3 5 xs
set_epoch-Drawn_example =
    set_epoch-Drawn reversing reversing-IsLawful granting 3 5 without_replacement 7 2 drawn-build

abbrev pub weighted : WeightedRandomSampler quarters (List ℕ)
weighted = record {
  weights = 4 ∷ 0 ∷ 8 ∷ [];
  num_samples = 3;
  replacement = false;
  seed = 1;
  epoch = 0;
  distribution = 4 ∷ 0 ∷ 8 ∷ [];
  indices = 2 ∷ 0 ∷ 1 ∷ [];
}

pub weighted-new :
    Weighted.new granting quarters reversing by_turns (4 ∷ 0 ∷ 8 ∷ []) 3 false 1 ≡ ok weighted
unfolding Weighted.new Weighted.weighted_indices Weighted.keyed Weighted.fill_zero
    Weighted.zero_weights Weighted.sort_by Weighted.insert_by Weighted.precedes
    Weighted.validate_weights Weighted.any validate_positive try_vec
weighted-new = refl

set_epoch-IsSelection_example :
    (xs : List ℕ) × (Weighted.set_epoch granting quarters reversing by_turns weighted 2
      ≡ ok (record weighted { epoch = 2; indices = xs }))
    × ((Weighted.sampler granting quarters reversing by_turns).iter
          (record weighted { epoch = 2; indices = xs })
        ≡ ok xs)
    × IsSelection quarters (4 ∷ 0 ∷ 8 ∷ []) 3 xs
set_epoch-IsSelection_example =
    set_epoch-IsSelection granting quarters reversing by_turns (4 ∷ 0 ∷ 8 ∷ []) 3 1
      reversing-IsLawful quarters-HasSigns 2 weighted-new

abbrev pub shuffled : SubsetRandomSampler
shuffled = record { source = 4 ∷ 9 ∷ 4 ∷ []; seed = 3; epoch = 0; indices = 4 ∷ 9 ∷ 4 ∷ [] }

pub shuffled-new : Subset.new granting reversing (4 ∷ 9 ∷ 4 ∷ []) 3 ≡ ok shuffled
unfolding Subset.new Subset.shuffled_copy try_vec
shuffled-new = refl

set_epoch-perm_example :
    (xs : List ℕ) × (Subset.set_epoch granting reversing shuffled 1
      ≡ ok (record shuffled { epoch = 1; indices = xs }))
    × ((Subset.sampler granting reversing).iter (record shuffled { epoch = 1; indices = xs })
        ≡ ok xs)
    × Perm xs (4 ∷ 9 ∷ 4 ∷ [])
set_epoch-perm_example =
    set_epoch-perm granting reversing reversing-IsLawful shuffled shuffled-new 1

-- The share of a rank among two, of five shuffled indices.
abbrev shard : ℕ → Bool → ℕ → List ℕ → DistributedSampler
shard rank drop_last num_samples indices = record {
  length = 5;
  replicas = 2;
  rank = rank;
  shuffle = true;
  seed = 3;
  drop_last = drop_last;
  epoch = 0;
  num_samples = num_samples;
  indices = indices;
}

abbrev pub shards : ℕ → DistributedSampler
shards zero = shard 0 false 3 (4 ∷ 2 ∷ 0 ∷ [])
shards (suc rank) = shard 1 false 3 (3 ∷ 1 ∷ 4 ∷ [])

pub shards-new :
    (rank : ℕ)
    → rank < 2
    → Distributed.new granting reversing 5 2 rank true 3 false ≡ ok (shards rank)
unfolding Distributed.new Distributed.distributed_indices Distributed.distributed_sample_count
    Distributed.extend_global Distributed.pad Distributed.step_from validate_positive try_vec
shards-new zero h = refl
shards-new (suc zero) h = refl
shards-new (suc (suc rank)) h = absurd (omega arith)

assigned_example : (rank : ℕ) × (rank < 2) × (k : ℕ) × (get_elem? (shards rank).indices k ≡ some 4)
assigned_example =
    assigned reversing reversing-IsLawful granting 5 2 true 3 shards (omega arith) shards-new 4
      (omega arith)

trimmed-new :
    Distributed.new granting reversing 5 2 1 true 3 true ≡ ok (shard 1 true 2 (3 ∷ 1 ∷ []))
unfolding Distributed.new Distributed.distributed_indices Distributed.distributed_sample_count
    Distributed.extend_global Distributed.step_from validate_positive try_vec
trimmed-new = refl

assigned_once_example : (◌≡◌ {A = ℕ} 1 1) × (◌≡◌ {A = ℕ} 0 0)
assigned_once_example =
    assigned_once reversing reversing-IsLawful granting 5 2 true 3 1 1 trimmed-new trimmed-new 0 0 3
      refl refl

set_epoch-IsShare_example :
    (xs : List ℕ) × (Distributed.set_epoch granting reversing (shards 1) 6
      ≡ ok (record (shards 1) { epoch = 6; indices = xs }))
    × ((Distributed.sampler granting reversing).iter (record (shards 1) { epoch = 6; indices = xs })
        ≡ ok xs)
    × IsShare (order reversing 5 true (epoch_seed 3 6)) 5 2 1 3 xs
    × CountBounds 5 2 false 3
set_epoch-IsShare_example =
    set_epoch-IsShare reversing granting 5 2 1 true 3 false reversing-IsLawful 6
      (shards-new 1 (omega arith))
