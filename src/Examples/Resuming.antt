-- ===== src/Examples/Resuming.antt =====
-- A pass over five indices in batches of two that is checkpointed after two of them, and resumed.
use rust_torch.Base.{ℕ, ◌≡◌, refl, false, none, some, List, [], ◌∷◌, map, arith, drop}
use rust_torch.Outcome.{ok}
use rust_torch.Sampler.Sequential
use rust_torch.Sampler.Sequential.{SequentialSampler}
use rust_torch.Sampler.Checkpoint.{IsPrepared}
use rust_torch.Sampler.Checkpoint.Prepared.{sequential-IsPrepared}
use rust_torch.Sampler.Checkpoint.Sequential as SequentialCheckpoint
use rust_torch.Sampler.Checkpoint.Sequential.{SequentialSamplerState}
use rust_torch.Loader.Tasks.{numbered, until_failure, item}
use rust_torch.Loader.Configuration.Envelope.{LoaderState}
use rust_torch.Loader.Plan.{AutoBatch}
use rust_torch.Loader.Serial.{LoaderIter, drain, start}
use rust_torch.Loader.Serial.Resume.{
  Parts, Origin, PendingSerial, checkpoint, pending, exact_iter, advance, fresh_batches,
}
use rust_torch.Loader.Serial.Resume.Boundary.{checkpoint_resumes}
use rust_torch.Examples.Instances.{granting}
use rust_torch.Examples.Checkpoints.{five}
use rust_torch.Examples.Configurations.{saved_configuration}
use rust_torch.Examples.Loading.{counting}
use rust_torch.Examples.Plans.{unbatched}

abbrev snapshots : Parts ℕ ℕ ℕ
snapshots = record { snapshot_dataset = 0; snapshot_transform = 0; save_coordinator = 0 }

abbrev digits : Origin
digits = record { identity = "digits"; configuration = saved_configuration }

five-IsPrepared : IsPrepared Sequential.sampler SequentialCheckpoint.checkpoint five 5
unfolding Sequential.set_epoch
five-IsPrepared = sequential-IsPrepared five 1 (omega arith)

abbrev pairs : AutoBatch SequentialSampler
pairs = record { sampler = five; batch_size = 2; drop_last = false }

abbrev the_batches : List (List ℕ)
the_batches = (0 ∷ 1 ∷ []) ∷ (2 ∷ 3 ∷ []) ∷ (4 ∷ []) ∷ []

pairs-fresh_batches : fresh_batches granting Sequential.sampler pairs ≡ ok the_batches
unfolding fresh_batches rust_torch.Loader.Plan.iter Sequential.sampler
    rust_torch.Sampler.Batch.collect rust_torch.Sampler.Batch.next
    rust_torch.Sampler.Batch.from_validated rust_torch.Storage.try_vec
pairs-fresh_batches = refl

checkpoint_resumes_example :
    (state : LoaderState ℕ SequentialSamplerState ℕ ℕ) × (checkpoint Sequential.sampler
        SequentialCheckpoint.checkpoint pairs snapshots digits
        (advance counting 2 (start the_batches))
      ≡ ok state)
    × (kept : PendingSerial) × (pending granting Sequential.sampler SequentialCheckpoint.checkpoint
          unbatched state 2 false
        ≡ ok (kept, pairs))
    × (resumed : LoaderIter ℕ) × (exact_iter (some kept) none [] ≡ (resumed, none))
    × (drain counting 4 resumed ≡ drain counting 4 (advance counting 2 (start the_batches)))
    × (drain counting 4 resumed
        ≡ until_failure (map (item counting) (drop 2 (numbered 7 0 0 the_batches))))
unfolding item rust_torch.Loader.Tasks.samples
checkpoint_resumes_example =
    checkpoint_resumes granting Sequential.sampler SequentialCheckpoint.checkpoint five 5
      five-IsPrepared 2 false counting snapshots digits unbatched 7 [] none 2 4 (omega arith)
      (omega arith) refl pairs-fresh_batches refl (omega arith) ((_, refl), ((_, refl), tt))
      (omega arith)

abbrev after_two : PendingSerial
after_two = record { batches = drop 2 the_batches; next_batch = 2; next_logical_sample = 4 }

-- The last batch has the sample 4 and the logical sample 4.
the_resumed_pass : drain counting 4 ((exact_iter (some after_two) none []).0) ≡ ok (8 ∷ []) ∷ []
unfolding exact_iter drain rust_torch.Loader.Serial.next rust_torch.Loader.Serial.first_error
    rust_torch.Loader.Serial.next_indices rust_torch.Loader.Serial.load
    rust_torch.Loader.Serial.transform_loop rust_torch.Loader.Serial.visible
    rust_torch.Loader.Tasks.conclude
the_resumed_pass = refl
