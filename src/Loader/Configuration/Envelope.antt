-- ===== src/Loader/Configuration/Envelope.antt =====
-- `LoaderState` of crates/rusttorch-data/src/checkpoint.rs, and what loader.rs tests of it before a pass
-- is resumed from it.
use rust_torch.Base.{ℕ, String, Bool, ◌&&◌, not, Option, none, some, if◌then◌else◌}
use rust_torch.Error.{RustTorchError, plain}
use rust_torch.Outcome.{Outcome, ok, ◌>>=◌, ◌>>◌, fail_if}
use rust_torch.Storage.{Allocator}
use rust_torch.Sampler.Validate.{invalid_configuration, validate_batch_size}
use rust_torch.Loader.Configuration.{
  ExplicitArguments, validate_exact_builder, resolve_pin_request, PinMemoryStatus,
  BuilderConfiguration, PlanCheckpointIdentity, LoaderConfiguration, Platform,
  validate_distributed_rank, checkpoint_pin_request, checkpoint_pin_status,
  checkpoint_configuration,
}
use rust_torch.Loader.Configuration.Comparison.{
  Comparison, numbers, flags, texts, options, requests, statuses,
}

pub record LoaderState (D S T C : Type 0) : Type 0 where
  pub schema_version : ℕ
  pub dataset_identity : String
  pub epoch : ℕ
  pub iterator_generation : ℕ
  pub next_batch : ℕ
  pub next_logical_sample : ℕ
  pub dataset : D
  pub sampler : S
  pub transform : T
  pub collate : C
  pub rng_derivation_version : ℕ
  pub worker_seed_derivation_version : ℕ
  pub configuration : LoaderConfiguration

abbrev pub loader_state_schema_version : ℕ
loader_state_schema_version = 1

-- crates/rusttorch-data/src/transform.rs and worker_context.rs.
abbrev pub task_rng_derivation_version : ℕ
task_rng_derivation_version = 1

abbrev pub worker_seed_derivation_version : ℕ
worker_seed_derivation_version = 1

unfoldable pub require_checkpoint_equal :
    {A : Type 0} → Comparison A → String → A → A → Outcome RustTorchError (Unit {0})
require_checkpoint_equal c field actual expected =
    fail_if (not (c.test actual expected))
      (invalid_configuration field (plain "checkpoint value does not match the loader"))

-- `bool::then_some`.
abbrev pub then_some : {A : Type 0} → Bool → A → Option A
then_some b a = if b then some a else none

module _ {Device Duration D S T C : Type 0} (platform : Platform Device Duration) where
  unfoldable pub validate_static_loader_state_envelope :
      LoaderState D S T C
      → String
      → BuilderConfiguration Device Duration
      → PinMemoryStatus Device
      → Bool
      → ℕ
      → Outcome RustTorchError (Unit {0})
  unfolding require_checkpoint_equal
  validate_static_loader_state_envelope state identity builder pin_status automatic_batching
        expected_generation =
      do
        expected_pin_request ← checkpoint_pin_request platform builder.pin_memory
        expected_pin_status ← checkpoint_pin_status platform pin_status
        require_checkpoint_equal numbers "schema_version" state.schema_version
            loader_state_schema_version
        require_checkpoint_equal texts "dataset_identity" state.dataset_identity identity
        require_checkpoint_equal numbers "iterator_generation" state.iterator_generation
            expected_generation
        require_checkpoint_equal numbers "rng_derivation_version" state.rng_derivation_version
            task_rng_derivation_version
        require_checkpoint_equal numbers "worker_seed_derivation_version"
            state.worker_seed_derivation_version worker_seed_derivation_version
        require_checkpoint_equal (options numbers) "batch_size" state.configuration.batch_size
            (then_some automatic_batching builder.batch_size)
        require_checkpoint_equal flags "drop_last" state.configuration.drop_last
            (automatic_batching && builder.drop_last)
        require_checkpoint_equal numbers "workers" state.configuration.workers builder.workers
        require_checkpoint_equal (options numbers) "prefetch_factor"
            state.configuration.prefetch_factor builder.prefetch_factor
        require_checkpoint_equal flags "in_order" state.configuration.in_order builder.ordered
        require_checkpoint_equal numbers "loader_seed" state.configuration.loader_seed
            builder.loader_seed
        require_checkpoint_equal numbers "rank" state.configuration.rank builder.rank
        require_checkpoint_equal requests "pin_request" state.configuration.pin_request
            expected_pin_request
        require_checkpoint_equal statuses "pin_status" state.configuration.pin_status
            expected_pin_status

  unfoldable pub validate_plan_loader_state_envelope :
      LoaderState D S T C → LoaderConfiguration → Outcome RustTorchError (Unit {0})
  unfolding require_checkpoint_equal
  validate_plan_loader_state_envelope state expected = do
    require_checkpoint_equal numbers "replicas" state.configuration.replicas expected.replicas
    require_checkpoint_equal (options flags) "distributed_shuffle"
        state.configuration.distributed_shuffle expected.distributed_shuffle
    require_checkpoint_equal (options numbers) "distributed_seed"
        state.configuration.distributed_seed expected.distributed_seed
    require_checkpoint_equal (options flags) "distributed_drop_last"
        state.configuration.distributed_drop_last expected.distributed_drop_last
    require_checkpoint_equal texts "sampler_kind" state.configuration.sampler_kind
        expected.sampler_kind

  -- The tests of the saved state in `build` of a resumed builder, up to those of the parts:
  -- `identity_from_state` is what the plan makes of the saved sampler.
  unfoldable pub resume_envelope :
      LoaderState D S T C
      → String
      → BuilderConfiguration Device Duration
      → PinMemoryStatus Device
      → Bool
      → Outcome RustTorchError PlanCheckpointIdentity
      → Outcome RustTorchError LoaderConfiguration
  unfolding validate_static_loader_state_envelope validate_plan_loader_state_envelope
  resume_envelope state identity builder pin_status automatic_batching identity_from_state = do
    validate_static_loader_state_envelope state identity builder pin_status automatic_batching 0
    plan_identity ← identity_from_state
    validate_distributed_rank platform plan_identity builder.rank
    expected ← checkpoint_configuration platform plan_identity builder pin_status
    validate_plan_loader_state_envelope state expected
    ok expected

  -- `build` of a resumed builder up to the tests of the parts.
  unfoldable pub resume_checks :
      Allocator
      → LoaderState D S T C
      → String
      → BuilderConfiguration Device Duration
      → ExplicitArguments
      → Bool
      → (ℕ → Bool → Outcome RustTorchError PlanCheckpointIdentity)
      → Outcome RustTorchError LoaderConfiguration
  unfolding resume_envelope
  resume_checks alloc state identity builder given automatic_batching identity_from_state = do
    validate_exact_builder platform builder given identity
    pin_status ← resolve_pin_request platform builder.pin_memory
    batch_size ← validate_batch_size alloc builder.batch_size
    resume_envelope state identity builder pin_status automatic_batching
        (identity_from_state batch_size builder.drop_last)
