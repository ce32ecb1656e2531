-- ===== src/Loader/Configuration.antt =====
-- The builder's options and their validation in crates/rusttorch-data/src/loader.rs. Devices, durations
-- and the devices that LibTorch reports are parameters.
pub mod Valid
pub mod Comparison
pub mod Envelope
pub mod Accepted
use Prim.Native.String.{len}
use mathlib.Core.Option.{map as map_option}
use rust_torch.Base.{
  ℕ, String, Bool, true, false, not, ◌&&◌, ◌||◌, Option, none, some, List, [], ◌∷◌, ◌==◌, ltb,
  if◌then◌else◌,
}
use rust_torch.Error.{Arg, RustTorchError, plain, number, Message}
use rust_torch.Outcome.{Outcome, ok, err, ◌>>=◌, ◌>>◌, fail_if}
use rust_torch.Sampler.Validate.{invalid_configuration}
use rust_torch.Sampler.Checkpoint.{DistributedConfiguration}

pub record ExplicitArguments : Type 0 where
  pub batch_size : Bool
  pub drop_last : Bool
  pub sampler : Bool
  pub shuffle : Bool
  pub batch_sampler : Bool
  pub without_batching : Bool
  pub prefetch_factor : Bool
  pub prefetch_bytes : Bool

pub data PinRequest (Device : Type 0) : Type 0 where
  disabled auto : PinRequest Device
  explicit : Device → PinRequest Device

-- crates/rusttorch-data/src/pin_memory.rs.
pub data PinMemoryStatus (Device : Type 0) : Type 0 where
  disabled disabled_no_accelerator : PinMemoryStatus Device
  enabled : Device → PinMemoryStatus Device

-- crates/rusttorch-data/src/checkpoint.rs.
pub data CheckpointPinRequest : Type 0 where
  disabled auto : CheckpointPinRequest
  explicit_cuda : (index : ℕ) → CheckpointPinRequest

pub data CheckpointPinStatus : Type 0 where
  disabled disabled_no_accelerator : CheckpointPinStatus
  cuda : (index : ℕ) → CheckpointPinStatus

pub record BuilderConfiguration (Device Duration : Type 0) : Type 0 where
  pub batch_size : ℕ
  pub drop_last : Bool
  pub workers : ℕ
  pub persistent_workers : Bool
  pub timeout : Option Duration
  pub ordered : Bool
  pub pin_memory : PinRequest Device
  pub prefetch_factor : Option ℕ
  pub prefetch_bytes : Option ℕ
  pub loader_seed : ℕ
  pub epoch : ℕ
  pub rank : ℕ

pub record PlanCheckpointIdentity : Type 0 where
  pub batch_size : Option ℕ
  pub drop_last : Bool
  pub sampler_kind : String
  pub distributed : Option DistributedConfiguration

-- crates/rusttorch-data/src/checkpoint.rs.
pub record LoaderConfiguration : Type 0 where
  pub batch_size : Option ℕ
  pub drop_last : Bool
  pub workers : ℕ
  pub prefetch_factor : Option ℕ
  pub in_order : Bool
  pub loader_seed : ℕ
  pub rank : ℕ
  pub replicas : ℕ
  pub distributed_shuffle : Option Bool
  pub distributed_seed : Option ℕ
  pub distributed_drop_last : Option Bool
  pub sampler_kind : String
  pub pin_request : CheckpointPinRequest
  pub pin_status : CheckpointPinStatus

-- The devices of LibTorch: which of them is a CUDA device, how one of an index is made, and what
-- `available_devices` reports. `can_represent` is that of `Deadline`, over the clock.
pub record Platform (Device Duration : Type 0) : Type 0 where
  pub index_of : Device → Option ℕ
  pub cuda_device : ℕ → Device
  pub describe : Device → String
  pub cuda : Bool
  pub cuda_device_count : ℕ
  pub can_represent : Duration → Bool

abbrev pub is_some : {A : Type 0} → Option A → Bool
is_some none = false
is_some (some a) = true

module _ {Device Duration : Type 0} (platform : Platform Device Duration) where
  abbrev pub rejects : String → String → RustTorchError
  rejects field reason = invalid_configuration field (plain reason)

  abbrev pub too_long : Option Duration → Bool
  too_long none = false
  too_long (some timeout) = not (platform.can_represent timeout)

  abbrev pub is_zero : Option ℕ → Bool
  is_zero none = false
  is_zero (some n) = n == 0

  unfoldable pub validate_configuration :
      BuilderConfiguration Device Duration → ExplicitArguments → Outcome RustTorchError (Unit {0})
  validate_configuration configuration given = do
    fail_if (configuration.batch_size == 0) (rejects "batch_size" "must be greater than zero")
    fail_if (given.sampler && given.shuffle) (rejects "sampler" "cannot be combined with shuffle")
    fail_if
        (given.batch_sampler
          && (given.batch_size
              || (given.shuffle || (given.sampler || (given.drop_last || given.without_batching)))))
        (rejects "batch_sampler"
          "cannot be combined with batch_size, shuffle, sampler, drop_last, or no batching")
    fail_if (given.without_batching && (given.drop_last && configuration.drop_last))
        (rejects "drop_last" "cannot be enabled when automatic batching is disabled")
    fail_if (configuration.workers == 0 && is_some configuration.timeout)
        (rejects "timeout" "requires a positive worker count")
    fail_if (too_long configuration.timeout)
        (rejects "timeout" "exceeds the platform monotonic clock range")
    fail_if (given.prefetch_factor && configuration.workers == 0)
        (rejects "prefetch_factor" "requires a positive worker count")
    fail_if (given.prefetch_bytes && configuration.workers == 0)
        (rejects "prefetch_bytes" "requires a positive worker count")
    fail_if (is_zero configuration.prefetch_factor)
        (rejects "prefetch_factor" "must be greater than zero")
    fail_if (configuration.persistent_workers && configuration.workers == 0)
        (rejects "persistent_workers" "requires a positive worker count")
    ok tt

  unfoldable pub validate_exact_builder :
      BuilderConfiguration Device Duration
      → ExplicitArguments
      → String
      → Outcome RustTorchError (Unit {0})
  unfolding validate_configuration
  validate_exact_builder configuration given identity = do
    validate_configuration configuration given
    fail_if (len identity == 0) (rejects "dataset_identity" "must not be empty")
    fail_if (not (configuration.workers == 0))
        (rejects "workers" "Task 11 exact checkpoints require serial execution")
    fail_if (not configuration.ordered)
        (rejects "in_order" "exact checkpoints require ordered delivery")

  unfoldable pub validate_distributed_rank :
      PlanCheckpointIdentity → ℕ → Outcome RustTorchError (Unit {0})
  validate_distributed_rank identity rank = elim identity.distributed [
    | none ↦ ok tt
    | some distributed ↦
        fail_if (not (distributed.rank == rank))
          (rejects "rank" "loader task rank must equal the distributed sampler rank")
  ]

  unfoldable pub resolve_pin_request :
      PinRequest Device → Outcome RustTorchError (PinMemoryStatus Device)
  resolve_pin_request PinRequest.disabled = ok PinMemoryStatus.disabled
  resolve_pin_request PinRequest.auto =
      if platform.cuda && ltb 0 platform.cuda_device_count
      then ok (PinMemoryStatus.enabled (platform.cuda_device 0))
      else ok PinMemoryStatus.disabled_no_accelerator
  resolve_pin_request (PinRequest.explicit device) = elim (platform.index_of device) [
    | some index ↦
        if platform.cuda && ltb index platform.cuda_device_count
        then ok (PinMemoryStatus.enabled (platform.cuda_device index))
        else err (
            invalid_configuration "pin_memory" (record {
              template =
                  "CUDA device {index} was requested, but the linked runtime exposes {} available CUDA device(s)";
              arguments = number index ∷ number platform.cuda_device_count ∷ [];
            }))
    | none ↦ err (
        invalid_configuration "pin_memory" (record {
          template = "only an available CUDA device can back pinned host memory, got {device:?}";
          arguments = Arg.text (platform.describe device) ∷ [];
        }))
  ]

  abbrev unsupported : String → Device → RustTorchError
  unsupported template device =
      invalid_configuration "pin_memory"
        (record { template = template; arguments = Arg.text (platform.describe device) ∷ [] })

  unfoldable pub checkpoint_pin_request :
      PinRequest Device → Outcome RustTorchError CheckpointPinRequest
  checkpoint_pin_request PinRequest.disabled = ok CheckpointPinRequest.disabled
  checkpoint_pin_request PinRequest.auto = ok CheckpointPinRequest.auto
  checkpoint_pin_request (PinRequest.explicit device) = elim (platform.index_of device) [
    | some index ↦ ok (CheckpointPinRequest.explicit_cuda index)
    | none ↦ err (unsupported "unsupported checkpoint pin device {device:?}" device)
  ]

  unfoldable pub checkpoint_pin_status :
      PinMemoryStatus Device → Outcome RustTorchError CheckpointPinStatus
  checkpoint_pin_status PinMemoryStatus.disabled = ok CheckpointPinStatus.disabled
  checkpoint_pin_status PinMemoryStatus.disabled_no_accelerator =
      ok CheckpointPinStatus.disabled_no_accelerator
  checkpoint_pin_status (PinMemoryStatus.enabled device) = elim (platform.index_of device) [
    | some index ↦ ok (CheckpointPinStatus.cuda index)
    | none ↦ err (unsupported "unsupported effective checkpoint pin device {device:?}" device)
  ]

  abbrev pub replicas_of : Option DistributedConfiguration → ℕ
  replicas_of none = 1
  replicas_of (some distributed) = distributed.replicas

  abbrev pub configuration_of :
      PlanCheckpointIdentity
      → BuilderConfiguration Device Duration
      → CheckpointPinRequest
      → CheckpointPinStatus
      → LoaderConfiguration
  configuration_of identity builder pin_request pin_status = record {
    batch_size = identity.batch_size;
    drop_last = identity.drop_last;
    workers = builder.workers;
    prefetch_factor = builder.prefetch_factor;
    in_order = true;
    loader_seed = builder.loader_seed;
    rank = builder.rank;
    replicas = replicas_of identity.distributed;
    distributed_shuffle =
        map_option (λ (d : DistributedConfiguration). d.shuffle) identity.distributed;
    distributed_seed = map_option (λ (d : DistributedConfiguration). d.seed) identity.distributed;
    distributed_drop_last =
        map_option (λ (d : DistributedConfiguration). d.drop_last) identity.distributed;
    sampler_kind = identity.sampler_kind;
    pin_request = pin_request;
    pin_status = pin_status;
  }

  unfoldable pub checkpoint_configuration :
      PlanCheckpointIdentity
      → BuilderConfiguration Device Duration
      → PinMemoryStatus Device
      → Outcome RustTorchError LoaderConfiguration
  unfolding checkpoint_pin_request checkpoint_pin_status
  checkpoint_configuration identity builder pin_status = do
    request ← checkpoint_pin_request builder.pin_memory
    status ← checkpoint_pin_status pin_status
    ok (configuration_of identity builder request status)
