-- ===== src/Loader/Plan.antt =====
-- The plan `AutoBatch` of crates/rusttorch-data/src/loader.rs: a sampler and the options of its batches,
-- as the loader iterates it and saves and restores its cursor.
pub mod Boundary
pub mod Resume
pub mod Single
pub mod Counts
pub mod Identity
use rust_torch.Base.{
  ℕ, Bool, true, false, not, ◌&&◌, ◌||◌, Option, none, some, List, ◌==◌, ◌/◌, ltb, String,
  if◌then◌else◌, saturating_add, leb, u64_max,
}
use mathlib.Core.Option
use rust_torch.Error.{RustTorchError, plain}
use rust_torch.Outcome.{Outcome, ok, err, ◌>>=◌, ◌>>◌, fail_if}
use rust_torch.Sampler.Validate.{invalid_configuration, is_multiple_of, batch_count, transpose}
use rust_torch.Sampler.Traits.{Sampler}
use rust_torch.Sampler.Batch.{BatchSampler, from_validated}
use rust_torch.Sampler.Checkpoint.{SamplerCheckpoint}
use rust_torch.Loader.Configuration.{PlanCheckpointIdentity}

pub record AutoBatch (S : Type 0) : Type 0 where
  pub sampler : S
  pub batch_size : ℕ
  pub drop_last : Bool

-- The end of a sequence whose short last batch is kept.
abbrev ends_short : Bool → ℕ → ℕ → ℕ → Bool → Option ℕ → Bool
ends_short drop_last next_batch next_sample complete aligned none = false
ends_short drop_last next_batch next_sample complete aligned (some length) =
    not drop_last
    && (next_sample == length && (not aligned && next_batch == saturating_add complete 1))

abbrev fits_schema : String → ℕ → Outcome RustTorchError ℕ
fits_schema reason value =
    if leb value u64_max then ok value else err (invalid_configuration "checkpoint" (plain reason))

abbrev exceeds : ℕ → Option ℕ → Bool
exceeds next_sample none = false
exceeds next_sample (some length) = ltb length next_sample

-- A batch size is not zero, as of `NonZeroUsize`.
unfoldable pub validate_auto_batch_boundary :
    Option ℕ → ℕ → Bool → ℕ → ℕ → Outcome RustTorchError (Unit {0})
validate_auto_batch_boundary exact_len size drop_last next_batch next_logical_sample = do
  batch_size ← fits_schema "batch size does not fit the checkpoint schema" size
  let complete = next_logical_sample / batch_size
  let aligned = is_multiple_of next_logical_sample batch_size
  length ← transpose (fits_schema "sampler length does not fit the checkpoint schema") exact_len
  let final_short = ends_short drop_last next_batch next_logical_sample complete aligned length
  fail_if ((not aligned || not (next_batch == complete)) && not final_short) (
      invalid_configuration "checkpoint"
        (plain "batch and logical sample cursors are not on a visible batch boundary"))
  fail_if (exceeds next_logical_sample length) (
      invalid_configuration "checkpoint" (plain "logical sample cursor exceeds the sampler length"))

module _ {S : Type 0} (sampler : Sampler S) where
  unfoldable pub iter : AutoBatch S → Outcome RustTorchError (BatchSampler (List ℕ))
  iter plan = do
    indices ← sampler.iter plan.sampler
    ok (from_validated indices plan.batch_size plan.drop_last)

  unfoldable pub exact_len : AutoBatch S → Option ℕ
  exact_len plan =
      Option.map (λ n. batch_count n plan.batch_size plan.drop_last)
        (sampler.exact_len plan.sampler)

  unfoldable pub set_epoch : AutoBatch S → ℕ → Outcome RustTorchError (AutoBatch S)
  set_epoch plan epoch = do
    s ← sampler.set_epoch plan.sampler epoch
    ok (record plan { sampler = s })

unfoldable pub apply_batch_options : {S : Type 0} → AutoBatch S → ℕ → Bool → AutoBatch S
apply_batch_options plan batch_size drop_last = record plan {
  batch_size = batch_size;
  drop_last = drop_last;
}

module _ {S State : Type 0} (c : SamplerCheckpoint S State) where
  unfoldable pub checkpoint_identity : AutoBatch S → PlanCheckpointIdentity
  checkpoint_identity plan = record {
    batch_size = some plan.batch_size;
    drop_last = plan.drop_last;
    sampler_kind = c.kind plan.sampler;
    distributed = c.distributed_configuration plan.sampler;
  }

  unfoldable pub checkpoint_identity_from_state :
      State → ℕ → Bool → Outcome RustTorchError PlanCheckpointIdentity
  checkpoint_identity_from_state state batch_size drop_last = do
    distributed ← c.checkpoint_distributed_configuration_from_state state
    ok (record {
      batch_size = some batch_size;
      drop_last = drop_last;
      sampler_kind = c.checkpoint_kind_from_state state;
      distributed = distributed;
    })

module _ {S State : Type 0} (sampler : Sampler S) (c : SamplerCheckpoint S State) where
  unfoldable pub checkpoint_state : AutoBatch S → ℕ → ℕ → Outcome RustTorchError State
  checkpoint_state plan next_batch next_logical_sample = do
    validate_auto_batch_boundary (sampler.exact_len plan.sampler) plan.batch_size plan.drop_last
        next_batch next_logical_sample
    c.checkpoint_state plan.sampler next_logical_sample

  unfoldable pub validate_checkpoint_state_with_batch_options :
      AutoBatch S → State → ℕ → ℕ → ℕ → ℕ → Bool → Outcome RustTorchError (Unit {0})
  validate_checkpoint_state_with_batch_options plan state epoch next_batch next_logical_sample
        batch_size drop_last =
      do
        validate_auto_batch_boundary (sampler.exact_len plan.sampler) batch_size drop_last
            next_batch next_logical_sample
        c.validate_checkpoint_state plan.sampler state epoch next_logical_sample

  -- The iterator of the remaining batches, and the plan at the restored epoch.
  unfoldable pub restore_checkpoint_iter_validated :
      AutoBatch S → State → Outcome RustTorchError (BatchSampler (List ℕ) × AutoBatch S)
  restore_checkpoint_iter_validated plan state = do
    r ← c.restore_checkpoint_iter_validated plan.sampler state
    ok (from_validated r.0 plan.batch_size plan.drop_last, record plan { sampler = r.1 })

  -- What `build` of a resumed builder does with the plan: the test of the saved cursor, the batch
  -- options, the iterator. The steps on the other parts of the loader lie between them.
  unfoldable pub restore_plan :
      AutoBatch S
      → State
      → ℕ
      → ℕ
      → ℕ
      → ℕ
      → Bool
      → Outcome RustTorchError (BatchSampler (List ℕ) × AutoBatch S)
  unfolding apply_batch_options restore_checkpoint_iter_validated
  restore_plan plan state epoch next_batch next_logical_sample batch_size drop_last = do
    validate_checkpoint_state_with_batch_options plan state epoch next_batch next_logical_sample
        batch_size drop_last
    restore_checkpoint_iter_validated (apply_batch_options plan batch_size drop_last) state
