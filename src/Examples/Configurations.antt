-- ===== src/Examples/Configurations.antt =====
-- Options of a loader on a platform with one CUDA device, and the state that such a loader saves.
use rust_torch.Base.{ℕ, Bool, ◌≡◌, refl, ◌↔◌, true, false, Option, none, some}
use rust_torch.Error.{RustTorchError}
use rust_torch.Outcome.{Outcome, ok}
use rust_torch.Examples.Instances.{granting}
use rust_torch.Sampler.Checkpoint.Sequential as SequentialCheckpoint
use rust_torch.Sampler.Checkpoint.Sequential.{SequentialSamplerState}
use rust_torch.Loader.Plan.{checkpoint_identity_from_state}
use rust_torch.Loader.Plan.Identity.{identity-IsPlan}
use rust_torch.Loader.Configuration.{
  ExplicitArguments, PinRequest, PinMemoryStatus, BuilderConfiguration, PlanCheckpointIdentity,
  LoaderConfiguration, CheckpointPinRequest, CheckpointPinStatus, Platform, configuration_of,
  validate_configuration,
}
use rust_torch.Loader.Configuration.Valid.{IsConsistent, validate_configuration-IsConsistent}
use rust_torch.Loader.Configuration.Envelope.{LoaderState, resume_envelope, resume_checks}
use rust_torch.Loader.Configuration.Accepted.{
  IsSameLoader, IsExact, resume_checks-IsSameLoader, resume_envelope-accepts,
}

-- A device is the index of a CUDA device, or not one; any duration can be represented.
abbrev one_device : Platform (Option ℕ) ℕ
one_device = record {
  index_of = λ device. device;
  cuda_device = λ index. some index;
  describe = λ device. "device";
  cuda = true;
  cuda_device_count = 1;
  can_represent = λ duration. true;
}

abbrev serial_builder : BuilderConfiguration (Option ℕ) ℕ
serial_builder = record {
  batch_size = 4;
  drop_last = true;
  workers = 0;
  persistent_workers = false;
  timeout = none;
  ordered = true;
  pin_memory = PinRequest.explicit (some 0);
  prefetch_factor = none;
  prefetch_bytes = none;
  loader_seed = 9;
  epoch = 2;
  rank = 0;
}

abbrev sampler_and_size : ExplicitArguments
sampler_and_size = record {
  batch_size = true;
  drop_last = true;
  sampler = true;
  shuffle = false;
  batch_sampler = false;
  without_batching = false;
  prefetch_factor = false;
  prefetch_bytes = false;
}

abbrev sequential_plan : PlanCheckpointIdentity
sequential_plan = record {
  batch_size = some 4;
  drop_last = true;
  sampler_kind = "sequential";
  distributed = none;
}

abbrev pub saved_configuration : LoaderConfiguration
saved_configuration =
    configuration_of one_device sequential_plan serial_builder
      (CheckpointPinRequest.explicit_cuda 0) (CheckpointPinStatus.cuda 0)

abbrev saved_state : LoaderState ℕ ℕ ℕ ℕ
saved_state = record {
  schema_version = 1;
  dataset_identity = "digits";
  epoch = 2;
  iterator_generation = 0;
  next_batch = 1;
  next_logical_sample = 4;
  dataset = 0;
  sampler = 4;
  transform = 0;
  collate = 0;
  rng_derivation_version = 1;
  worker_seed_derivation_version = 1;
  configuration = saved_configuration;
}

validate_configuration-IsConsistent_example :
    (validate_configuration one_device serial_builder sampler_and_size ≡ ok tt)
    ↔ IsConsistent one_device serial_builder sampler_and_size
validate_configuration-IsConsistent_example =
    validate_configuration-IsConsistent one_device serial_builder sampler_and_size

accepted : validate_configuration one_device serial_builder sampler_and_size ≡ ok tt
unfolding validate_configuration
accepted = refl

saved_state-IsSameLoader : IsSameLoader one_device saved_state "digits" saved_configuration
saved_state-IsSameLoader = record {
  schema = refl;
  dataset = refl;
  serial = refl;
  rng = refl;
  seeds = refl;
  configuration = refl;
}

resume_envelope-accepts_example :
    resume_envelope one_device saved_state "digits" serial_builder
      (PinMemoryStatus.enabled (some 0))
      true
      (ok sequential_plan)
    ≡ ok saved_configuration
unfolding rust_torch.Loader.Configuration.validate_distributed_rank
    rust_torch.Loader.Configuration.checkpoint_configuration
resume_envelope-accepts_example =
    resume_envelope-accepts one_device saved_state "digits" serial_builder
      (PinMemoryStatus.enabled (some 0)) true sequential_plan refl refl refl refl refl
      saved_state-IsSameLoader

-- What automatic batches make of the cursor of a sequential sampler.
abbrev cursor : SequentialSamplerState
cursor = record { length = 10; epoch = 2; position = 4 }

abbrev resumed_plan : ℕ → Bool → Outcome RustTorchError PlanCheckpointIdentity
resumed_plan = checkpoint_identity_from_state SequentialCheckpoint.checkpoint cursor

accepted_state :
    resume_checks one_device granting saved_state "digits" serial_builder sampler_and_size true
      resumed_plan
    ≡ ok saved_configuration
unfolding resume_checks checkpoint_identity_from_state SequentialCheckpoint.checkpoint
    rust_torch.Loader.Configuration.validate_distributed_rank
    rust_torch.Loader.Configuration.validate_exact_builder
    rust_torch.Loader.Configuration.resolve_pin_request
    rust_torch.Sampler.Validate.validate_batch_size rust_torch.Storage.try_vec
    rust_torch.Loader.Configuration.checkpoint_pin_request
    rust_torch.Loader.Configuration.checkpoint_pin_status
    rust_torch.Loader.Configuration.checkpoint_configuration
accepted_state = refl

resume_checks-IsSameLoader_example :
    IsExact one_device serial_builder sampler_and_size
    × IsSameLoader one_device saved_state "digits" saved_configuration
resume_checks-IsSameLoader_example =
    resume_checks-IsSameLoader one_device granting saved_state "digits" serial_builder
      sampler_and_size true resumed_plan (identity-IsPlan SequentialCheckpoint.checkpoint cursor)
      accepted_state
