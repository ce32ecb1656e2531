-- ===== src/Examples/Plans.antt =====
-- The plan of a loader over five indices in batches of two, saved before its short last batch.
use rust_torch.Base.{◌≡◌, ◌↔◌, refl, false, true, some, List, ℕ, drop, arith}
use rust_torch.Outcome.{ok}
use rust_torch.Sampler.Validate.{validate_position}
use rust_torch.Sampler.Sequential
use rust_torch.Sampler.Sequential.{SequentialSampler}
use rust_torch.Sampler.Checkpoint.Sequential as SequentialCheckpoint
use rust_torch.Sampler.Checkpoint.Sequential.{SequentialSamplerState, sequential-IsResumable}
use rust_torch.Sampler.Checkpoint.Batch.Boundary.{IsBoundary}
use rust_torch.Loader.Plan
use rust_torch.Loader.Plan.{AutoBatch, validate_auto_batch_boundary}
use rust_torch.Loader.Plan.Boundary.{validate_auto_batch_boundary-IsBoundary}
use rust_torch.Loader.Plan.Resume.{ResumesAt, restore_plan-ResumesAt}
use rust_torch.Loader.Plan.Single
use rust_torch.Loader.Plan.Single.{NoBatch, single_resumes}
use rust_torch.Examples.Instances.{granting}
use rust_torch.Examples.Checkpoints.{five}

validate_auto_batch_boundary-IsBoundary_example :
    (validate_auto_batch_boundary (some 5) 2 false 3 5 ≡ ok tt) ↔ IsBoundary 5 2 false 3 5
validate_auto_batch_boundary-IsBoundary_example =
    validate_auto_batch_boundary-IsBoundary 5 2 false 3 5 (omega arith) (omega arith) (omega arith)

-- A cursor beyond the end is a boundary by its counts alone.
beyond_the_end : ¬ (validate_auto_batch_boundary (some 5) 2 false 3 6 ≡ ok tt)
unfolding validate_auto_batch_boundary
beyond_the_end h = ground arith

-- A new loader, before the options of the saved one are applied.
abbrev pub unbatched : AutoBatch SequentialSampler
unbatched = record { sampler = five; batch_size = 1; drop_last = true }

abbrev four_consumed : SequentialSamplerState
four_consumed = record { length = 5; epoch = 1; position = 4 }

four_consumed-saved :
    Plan.checkpoint_state Sequential.sampler SequentialCheckpoint.checkpoint
      (record { sampler = five; batch_size = 2; drop_last = false })
      2
      4
    ≡ ok four_consumed
unfolding Plan.checkpoint_state validate_auto_batch_boundary SequentialCheckpoint.checkpoint
    SequentialCheckpoint.checkpoint_state Sequential.sampler validate_position
four_consumed-saved = refl

restore_plan-ResumesAt_example :
    ResumesAt granting Sequential.sampler SequentialCheckpoint.checkpoint five 5
      (sequential-IsResumable five)
      2
      false
      (omega arith)
      refl
      unbatched
      four_consumed
      (Sequential.sampler.epoch five)
      2
      4
restore_plan-ResumesAt_example =
    restore_plan-ResumesAt granting Sequential.sampler SequentialCheckpoint.checkpoint five 5
      (sequential-IsResumable five) 2 false (omega arith) refl unbatched four_consumed 2 4 refl
      four_consumed-saved

four_alone-saved :
    Single.checkpoint_state SequentialCheckpoint.checkpoint (record { sampler = five }) 4 4
    ≡ ok four_consumed
unfolding Single.checkpoint_state Single.validate_cursors SequentialCheckpoint.checkpoint
    SequentialCheckpoint.checkpoint_state validate_position
four_alone-saved = refl

single_resumes_example :
    (Single.validate_checkpoint_state SequentialCheckpoint.checkpoint
        (record { sampler = five })
        four_consumed
        (Sequential.sampler.epoch five)
        4
        4
      ≡ ok tt)
    × (plan : NoBatch SequentialSampler) × (all : List (List ℕ)) × (Single.set_epoch
          Sequential.sampler
          (record { sampler = five })
          (Sequential.sampler.epoch five)
        ≡ ok plan)
    × (Single.iter Sequential.sampler plan ≡ ok all)
    × (Single.restore_checkpoint_iter_validated SequentialCheckpoint.checkpoint
          (record { sampler = five })
          four_consumed
        ≡ ok (drop 4 all, plan))
single_resumes_example =
    single_resumes Sequential.sampler SequentialCheckpoint.checkpoint five 5
      (sequential-IsResumable five) four_consumed 4 4 four_alone-saved
