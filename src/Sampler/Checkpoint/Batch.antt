-- ===== src/Sampler/Checkpoint/Batch.antt =====
-- `impl BatchSourceCheckpoint for BatchSampler<S>` of crates/rusttorch-data/src/sampler.rs, and
-- resumption of the batch sequence.
pub mod Boundary
use rust_torch.Base.{ℕ, Bool, Option, String, ◌==◌, eq_bool, List, [], ◌∷◌}
use rust_torch.Error.{Arg, Message, RustTorchError}
use rust_torch.Outcome.{Outcome, ok, ◌>>=◌, ◌>>◌}
use rust_torch.Sampler.Validate.{usize_to_u64, require_equal, validate_batch_boundary}
use rust_torch.Sampler.Traits.{Sampler}
use rust_torch.Sampler.Batch.{BatchSampler, from_validated}
use rust_torch.Sampler.Checkpoint.{DistributedConfiguration, SamplerCheckpoint}

pub record BatchSamplerState (State : Type 0) : Type 0 where
  pub sampler : State
  pub batch_size : ℕ
  pub drop_last : Bool
  pub next_batch : ℕ
  pub next_logical_sample : ℕ

-- `format!("batch_sampler/{}", kind)`.
unfoldable pub batch_kind : String → Message
batch_kind kind = record { template = "batch_sampler/{}"; arguments = Arg.text kind ∷ [] }

module _ {S State : Type 0} (sampler : Sampler S) (c : SamplerCheckpoint S State) where
  unfoldable pub kind : BatchSampler S → Message
  kind b = batch_kind (c.kind b.sampler)

  unfoldable pub checkpoint_kind_from_state : BatchSamplerState State → Message
  checkpoint_kind_from_state state = batch_kind (c.checkpoint_kind_from_state state.sampler)

  unfoldable pub checkpoint_state :
      BatchSampler S → ℕ → ℕ → Outcome RustTorchError (BatchSamplerState State)
  checkpoint_state b next_batch next_logical_sample = do
    validate_batch_boundary (sampler.exact_len b.sampler) b.batch_size b.drop_last next_batch
        next_logical_sample
    inner ← c.checkpoint_state b.sampler next_logical_sample
    batch_size ← usize_to_u64 b.batch_size "batch_sampler"
    ok (record {
      sampler = inner;
      batch_size = batch_size;
      drop_last = b.drop_last;
      next_batch = next_batch;
      next_logical_sample = next_logical_sample;
    })

  unfoldable pub validate_checkpoint_state :
      BatchSampler S → BatchSamplerState State → ℕ → ℕ → ℕ → Outcome RustTorchError (Unit {0})
  validate_checkpoint_state b state epoch next_batch next_logical_sample = do
    batch_size ← usize_to_u64 b.batch_size "batch_sampler"
    require_equal ◌==◌ "batch_sampler" state.batch_size batch_size
    require_equal eq_bool "batch_sampler" state.drop_last b.drop_last
    require_equal ◌==◌ "checkpoint" state.next_batch next_batch
    require_equal ◌==◌ "checkpoint" state.next_logical_sample next_logical_sample
    validate_batch_boundary (sampler.exact_len b.sampler) b.batch_size b.drop_last state.next_batch
        state.next_logical_sample
    c.validate_checkpoint_state b.sampler state.sampler epoch state.next_logical_sample

  -- The iterator of the remaining batches, and the batch sampler at the restored epoch.
  unfoldable pub restore_checkpoint_iter_validated :
      BatchSampler S
      → BatchSamplerState State
      → Outcome RustTorchError (BatchSampler (List ℕ) × BatchSampler S)
  restore_checkpoint_iter_validated b state = do
    r ← c.restore_checkpoint_iter_validated b.sampler state.sampler
    ok (from_validated r.0 b.batch_size b.drop_last, record b { sampler = r.1 })

  unfoldable pub distributed_configuration : BatchSampler S → Option DistributedConfiguration
  distributed_configuration b = c.distributed_configuration b.sampler

  unfoldable pub checkpoint_distributed_configuration_from_state :
      BatchSamplerState State → Outcome RustTorchError (Option DistributedConfiguration)
  checkpoint_distributed_configuration_from_state state =
      c.checkpoint_distributed_configuration_from_state state.sampler
