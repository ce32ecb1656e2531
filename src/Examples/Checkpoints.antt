-- ===== src/Examples/Checkpoints.antt =====
-- Saved and restored states of the samplers.
use rust_torch.Base.{◌≡◌, ◌↔◌, ◌⊎◌, refl, true, false, some, arith}
use rust_torch.Outcome.{ok}
use rust_torch.Sampler.Validate.{
  validate_positive, validate_batch_size, validate_position, validate_epoch_position,
  validate_batch_boundary,
}
use rust_torch.Sampler.Batch
use rust_torch.Sampler.Batch.{BatchSampler}
use rust_torch.Sampler.Sequential
use rust_torch.Sampler.Sequential.{SequentialSampler}
use rust_torch.Sampler.Random
use rust_torch.Sampler.Weighted
use rust_torch.Sampler.Subset
use rust_torch.Sampler.Distributed
use rust_torch.Sampler.Checkpoint.{IsResumable}
use rust_torch.Sampler.Checkpoint.Sequential as SequentialCheckpoint
use rust_torch.Sampler.Checkpoint.Sequential.{SequentialSamplerState, sequential-IsResumable}
use rust_torch.Sampler.Checkpoint.Random as RandomCheckpoint
use rust_torch.Sampler.Checkpoint.Random.{random-IsResumable}
use rust_torch.Sampler.Checkpoint.Subset as SubsetCheckpoint
use rust_torch.Sampler.Checkpoint.Subset.{subset-IsResumable}
use rust_torch.Sampler.Checkpoint.Weighted as WeightedCheckpoint
use rust_torch.Sampler.Checkpoint.Weighted.{weighted-IsResumable}
use rust_torch.Sampler.Checkpoint.Distributed as DistributedCheckpoint
use rust_torch.Sampler.Checkpoint.Distributed.{
  DistributedSamplerState, distributed-IsResumable, distributed_configuration-from_state,
}
use rust_torch.Sampler.Checkpoint.Batch as BatchCheckpoint
use rust_torch.Sampler.Checkpoint.Batch.{BatchSamplerState}
use rust_torch.Sampler.Checkpoint.Batch.Boundary.{
  IsBoundary, IsBeyond, RestoredAt, validate_batch_boundary-IsBoundary, restore_resumes,
  checkpoint_round_trip,
}
use rust_torch.Storage.{try_vec}
use rust_torch.Examples.Instances.{
  granting, reversing, reversing-IsLawful, quarters, quarters-HasSigns, by_turns,
}
use rust_torch.Examples.Sampling.{
  drawn, drawn-build, weighted, weighted-new, shuffled, shuffled-new, shards, shards-new,
}

abbrev pub five : SequentialSampler
five = record { length = 5; epoch = 1; indices = record { start = 0; end = 5 } }

sequential-IsResumable_example :
    IsResumable Sequential.sampler SequentialCheckpoint.checkpoint five 5
sequential-IsResumable_example = sequential-IsResumable five

random-IsResumable_example :
    IsResumable
      (Random.sampler granting reversing)
      (RandomCheckpoint.checkpoint granting reversing)
      drawn
      5
random-IsResumable_example =
    random-IsResumable granting reversing reversing-IsLawful drawn drawn-build

subset-IsResumable_example :
    IsResumable
      (Subset.sampler granting reversing)
      (SubsetCheckpoint.checkpoint granting reversing)
      shuffled
      3
subset-IsResumable_example =
    subset-IsResumable granting reversing reversing-IsLawful shuffled shuffled-new

weighted-IsResumable_example :
    IsResumable
      (Weighted.sampler granting quarters reversing by_turns)
      (WeightedCheckpoint.checkpoint granting quarters reversing by_turns)
      weighted
      3
weighted-IsResumable_example =
    weighted-IsResumable granting quarters reversing by_turns reversing-IsLawful quarters-HasSigns
      weighted weighted-new refl

distributed-IsResumable_example :
    IsResumable
      (Distributed.sampler granting reversing)
      (DistributedCheckpoint.checkpoint granting reversing)
      (shards 1)
      3
distributed-IsResumable_example =
    distributed-IsResumable granting reversing reversing-IsLawful (shards 1)
      (shards-new 1 (omega arith)) refl

abbrev shard_state : DistributedSamplerState
shard_state = record {
  length = 5;
  replicas = 2;
  rank = 1;
  shuffle = true;
  seed = 3;
  drop_last = false;
  epoch = 0;
  position = 2;
}

shard_state-saved : DistributedCheckpoint.checkpoint_state (shards 1) 2 ≡ ok shard_state
unfolding DistributedCheckpoint.checkpoint_state validate_position
shard_state-saved = refl

distributed_configuration-from_state_example :
    DistributedCheckpoint.distributed_configuration_from_state shard_state
    ≡ ok (DistributedCheckpoint.distributed_configuration (shards 1))
distributed_configuration-from_state_example =
    distributed_configuration-from_state (shards 1) 2 shard_state shard_state-saved

validate_batch_boundary-IsBoundary_example :
    (validate_batch_boundary (some 5) 2 false 3 5 ≡ ok tt)
    ↔ (IsBoundary 5 2 false 3 5 ⊎ IsBeyond 5 2 3 5)
validate_batch_boundary-IsBoundary_example =
    validate_batch_boundary-IsBoundary 5 2 false 3 5 (omega arith) (omega arith) (omega arith)

-- Six indices of a sequence of five pass for three batches of two.
beyond_the_end_accepted : validate_batch_boundary (some 5) 2 false 3 6 ≡ ok tt
unfolding validate_batch_boundary
beyond_the_end_accepted = refl

abbrev pairs_of_five : BatchSampler SequentialSampler
pairs_of_five = record { sampler = five; batch_size = 2; drop_last = false }

pairs_of_five-new : Batch.new granting five 2 false ≡ ok pairs_of_five
unfolding Batch.new Batch.from_validated validate_batch_size validate_positive try_vec
pairs_of_five-new = refl

abbrev at_four : BatchSamplerState SequentialSamplerState
at_four = record {
  sampler = record { length = 5; epoch = 1; position = 4 };
  batch_size = 2;
  drop_last = false;
  next_batch = 2;
  next_logical_sample = 4;
}

at_four-saved :
    BatchCheckpoint.checkpoint_state Sequential.sampler SequentialCheckpoint.checkpoint
      pairs_of_five 2 4
    ≡ ok at_four
unfolding BatchCheckpoint.checkpoint_state SequentialCheckpoint.checkpoint
    SequentialCheckpoint.checkpoint_state Sequential.sampler validate_batch_boundary
    validate_position
at_four-saved = refl

at_four-valid :
    BatchCheckpoint.validate_checkpoint_state Sequential.sampler SequentialCheckpoint.checkpoint
      pairs_of_five at_four 1 2 4
    ≡ ok tt
unfolding BatchCheckpoint.validate_checkpoint_state SequentialCheckpoint.checkpoint
    SequentialCheckpoint.validate_checkpoint_state Sequential.sampler validate_batch_boundary
    validate_position validate_epoch_position
at_four-valid = refl

restore_resumes_example :
    RestoredAt granting Sequential.sampler SequentialCheckpoint.checkpoint five 5
      (sequential-IsResumable five)
      2
      false
      pairs_of_five
      at_four
      1
      2
restore_resumes_example =
    restore_resumes granting Sequential.sampler SequentialCheckpoint.checkpoint five 5
      (sequential-IsResumable five) 2 false at_four 1 2 4 pairs_of_five-new at_four-valid

checkpoint_round_trip_example :
    (BatchCheckpoint.validate_checkpoint_state Sequential.sampler SequentialCheckpoint.checkpoint
        pairs_of_five at_four
        (Sequential.sampler.epoch five)
        2
        4
      ≡ ok tt)
    × RestoredAt granting Sequential.sampler SequentialCheckpoint.checkpoint five 5
        (sequential-IsResumable five)
        2
        false
        pairs_of_five
        at_four
        (Sequential.sampler.epoch five)
        2
checkpoint_round_trip_example =
    checkpoint_round_trip granting Sequential.sampler SequentialCheckpoint.checkpoint five 5
      (sequential-IsResumable five) 2 false at_four 2 4 pairs_of_five-new at_four-saved
