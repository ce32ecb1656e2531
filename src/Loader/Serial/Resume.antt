-- ===== src/Loader/Serial/Resume.antt =====
-- The exact checkpoint of a `LoaderIter`, and the pass that is resumed from it:
-- crates/rusttorch-data/src/loader.rs.
pub mod Advance
pub mod Boundary
use rust_torch.Base.{
  ℕ, zero, suc, String, Bool, true, false, not, Option, none, some, List, length, if◌then◌else◌,
}
use rust_torch.Error.{RustTorchError}
use rust_torch.Outcome.{Outcome, ok, err, panic, ◌>>=◌, ◌>>◌, fail_if}
use rust_torch.Storage.{Allocator}
use rust_torch.Sampler.Traits.{Sampler}
use rust_torch.Sampler.Batch.{BatchSampler, collect}
use rust_torch.Sampler.Checkpoint.{SamplerCheckpoint}
use rust_torch.Loader.Plan
use rust_torch.Loader.Plan.{AutoBatch, checkpoint_state, restore_plan}
use rust_torch.Loader.{LoaderError, Pipeline, map_err}
use rust_torch.Loader.Configuration.{LoaderConfiguration}
use rust_torch.Loader.Configuration.Envelope.{
  LoaderState, loader_state_schema_version, task_rng_derivation_version,
  worker_seed_derivation_version,
}
use rust_torch.Loader.Serial.{LoaderIter, next, iter}

-- The snapshots of the dataset, the transform and the collator, which a checkpoint carries along.
pub record Parts (D T C : Type 0) : Type 0 where
  pub snapshot_dataset : D
  pub snapshot_transform : T
  pub save_coordinator : C

-- The fields of `CheckpointIteration` that stay as they are.
pub record Origin : Type 0 where
  pub identity : String
  pub configuration : LoaderConfiguration

module _ {S V D T C : Type 0} (sampler : Sampler S) (c : SamplerCheckpoint S V) (plan : AutoBatch S)
    (parts : Parts D T C) (origin : Origin) where
  -- The iterator has read the epoch of the plan, which it borrows.
  unfoldable pub loader_state : ℕ → ℕ → V → LoaderState D V T C
  loader_state next_batch next_logical_sample cursor = record {
    schema_version = loader_state_schema_version;
    dataset_identity = origin.identity;
    epoch = sampler.epoch plan.sampler;
    iterator_generation = 0;
    next_batch = next_batch;
    next_logical_sample = next_logical_sample;
    dataset = parts.snapshot_dataset;
    sampler = cursor;
    transform = parts.snapshot_transform;
    collate = parts.save_coordinator;
    rng_derivation_version = task_rng_derivation_version;
    worker_seed_derivation_version = worker_seed_derivation_version;
    configuration = origin.configuration;
  }

  unfoldable pub checkpoint :
      {E : Type 0} → LoaderIter E → Outcome (LoaderError E) (LoaderState D V T C)
  unfolding loader_state
  checkpoint it = do
    fail_if (not it.boundary_valid)
        (LoaderError.checkpoint "the active iterator is not at a consumer-visible batch boundary")
    fail_if (not it.has_transform)
        (LoaderError.checkpoint "the serial transform was not constructed")
    cursor ←
        map_err LoaderError.configuration
          (checkpoint_state sampler c plan it.next_batch it.next_logical_sample)
    ok (loader_state it.next_batch it.next_logical_sample cursor)

-- The cursor of a resumed loader, kept for its first pass; its transform is of the pipeline.
pub record PendingSerial : Type 0 where
  pub batches : List (List ℕ)
  pub next_batch : ℕ
  pub next_logical_sample : ℕ

-- What the iterator of a plan yields.
unfoldable pub yielded : Allocator → BatchSampler (List ℕ) → Outcome RustTorchError (List (List ℕ))
yielded alloc it = collect alloc (suc (length it.sampler)) it

-- The batches of a fresh pass.
unfoldable pub fresh_batches :
    {S : Type 0} → Allocator → Sampler S → AutoBatch S → Outcome RustTorchError (List (List ℕ))
unfolding yielded
fresh_batches alloc sampler plan = do it ← Plan.iter sampler plan; yielded alloc it

-- What `build` of a resumed builder makes of the saved cursor, with its batch options: the tests of the
-- plan, the kept cursor, and the plan of the new loader.
unfoldable pub pending :
    {S V D T C : Type 0}
    → Allocator
    → Sampler S
    → SamplerCheckpoint S V
    → AutoBatch S
    → LoaderState D V T C
    → ℕ
    → Bool
    → Outcome RustTorchError (PendingSerial × AutoBatch S)
unfolding yielded
pending alloc sampler c plan state batch_size drop_last = do
  r ←
      restore_plan sampler c plan state.sampler state.epoch state.next_batch
        state.next_logical_sample batch_size drop_last
  batches ← yielded alloc r.0
  ok (
    record {
      batches = batches;
      next_batch = state.next_batch;
      next_logical_sample = state.next_logical_sample;
    },
    r.1,
  )

-- `iter` of an exact loader, and what it leaves of the kept cursor: `create_error` and `fresh` are what
-- the transform factory and the plan give a fresh pass.
unfoldable pub exact_iter :
    {E : Type 0}
    → Option PendingSerial
    → Option E
    → List (List ℕ)
    → LoaderIter E × Option PendingSerial
exact_iter (some kept) create_error fresh = (
  record {
    batches = some kept.batches;
    has_transform = true;
    transform_error = none;
    next_batch = kept.next_batch;
    next_logical_sample = kept.next_logical_sample;
    exhausted = false;
    boundary_valid = true;
  },
  none,
)
exact_iter none create_error fresh = (iter create_error fresh, none)

-- The iterator after so many calls of `next`.
unfoldable pub advance : {S T B E : Type 0} → Pipeline S T B E → ℕ → LoaderIter E → LoaderIter E
unfolding next
advance p zero it = it
advance p (suc calls) it = advance p calls (next p it).1
