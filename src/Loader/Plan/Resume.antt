-- ===== src/Loader/Plan/Resume.antt =====
-- The cursor of the plan `AutoBatch`, saved at a boundary and restored into a resumed loader.
use rust_torch.Base.{ℕ, suc, ◌<◌, ◌≡◌, refl, ap, ◌∙◌, Bool, none, some, List, arith, length, drop}
use rust_torch.Outcome.{ok, >>=-eq-ok}
use rust_torch.Storage.{Allocator, usize_size}
use rust_torch.Sampler.Traits.{Sampler}
use rust_torch.Sampler.Batch.{BatchSampler, collect, from_validated}
use rust_torch.Sampler.Batch.Slices.{batches}
use rust_torch.Sampler.Batch.Partition.{collect-over, over}
use rust_torch.Sampler.Checkpoint.{SamplerCheckpoint, IsResumable}
use rust_torch.Sampler.Checkpoint.Batch.Boundary.{batches-resume}
use rust_torch.Loader.Plan.{
  AutoBatch, validate_auto_batch_boundary, iter, set_epoch, apply_batch_options, checkpoint_state,
  validate_checkpoint_state_with_batch_options, restore_checkpoint_iter_validated, restore_plan,
}
use rust_torch.Loader.Plan.Boundary.{IsBoundary-of_accepted}

-- The iterator yields these batches and ends.
abbrev pub Yields : Allocator → BatchSampler (List ℕ) → List (List ℕ) → Type 0
Yields alloc it all = collect alloc (suc (length it.sampler)) it ≡ ok all

module _ {S State : Type 0} (alloc : Allocator) (sampler : Sampler S)
    (c : SamplerCheckpoint S State) (s : S) (len : ℕ) (law : IsResumable sampler c s len) (size : ℕ)
    (drop_last : Bool) (pos : 0 < size) (granted : alloc usize_size size ≡ none) where
  abbrev plan_of : S → AutoBatch S
  plan_of inner = record { sampler = inner; batch_size = size; drop_last = drop_last }

  -- A resumed loader starts with these batches left, its plan at the epoch.
  abbrev pub ResumesAt : AutoBatch S → State → ℕ → ℕ → ℕ → Type 0
  ResumesAt plan state epoch next_batch position =
      (plan' : AutoBatch S) × (whole rest : BatchSampler (List ℕ)) × (all : List (List ℕ))
      × (set_epoch sampler (apply_batch_options plan size drop_last) epoch ≡ ok plan')
      × (iter sampler plan' ≡ ok whole)
      × (Yields alloc whole all)
      × (restore_plan sampler c plan state epoch next_batch position size drop_last
          ≡ ok (rest, plan'))
      × (Yields alloc rest (drop next_batch all))

  restore_plan-resumes :
      (drop0 : Bool) (size0 : ℕ) (state : State) (epoch next_batch position : ℕ)
      → validate_auto_batch_boundary (some len) size drop_last next_batch position ≡ ok tt
      → c.validate_checkpoint_state s state epoch position ≡ ok tt
      → ResumesAt
          (record { sampler = s; batch_size = size0; drop_last = drop0 })
          state
          epoch
          next_batch
          position
  unfolding iter set_epoch apply_batch_options restore_checkpoint_iter_validated restore_plan
      validate_checkpoint_state_with_batch_options from_validated
  restore_plan-resumes drop0 size0 state epoch next_batch position boundary valid =
      let (s', xs, at, run, whole, inside, back) = law.resumes state epoch position valid in
      let (stands, _) =
        IsBoundary-of_accepted len size drop_last next_batch position pos boundary in
      (
        plan_of s',
        over size drop_last pos xs,
        over size drop_last pos (drop position xs),
        batches size drop_last xs,
        rw at refl,
        rw run refl,
        collect-over alloc size drop_last pos granted (suc (length xs)) xs (omega arith),
        rw (law.exact, boundary, valid, back) refl,
        collect-over alloc size drop_last pos granted (suc (length (drop position xs)))
              (drop position xs) (omega arith)
            ∙ ap ok (
                batches-resume size drop_last xs next_batch position pos (omega arith)
                  (rw whole stands)),
      )

  checkpoint_state-valid :
      (state : State) (next_batch position : ℕ)
      → checkpoint_state sampler c (plan_of s) next_batch position ≡ ok state
      → (validate_auto_batch_boundary (some len) size drop_last next_batch position ≡ ok tt)
        × (c.checkpoint_state s position ≡ ok state)
  unfolding checkpoint_state
  checkpoint_state-valid state next_batch position h =
      let (_, boundary, saved) =
        >>=-eq-ok
          (validate_auto_batch_boundary (sampler.exact_len s) size drop_last next_batch position) _
          h in
      (rw law.exact at boundary, saved)

  -- Over a resumable sampler, a cursor that the plan of a loader saves is accepted by the plan of a new
  -- loader over the same sampler, whatever its own options were, with the batch options of the saved
  -- one: at the epoch of the saved pass it leaves exactly the batches of a whole pass that come after
  -- the first `next_batch`, and the iterators yield their batches without a panic. The batch size is
  -- above 0 and its storage is granted.
  pub restore_plan-ResumesAt :
      (plan : AutoBatch S) (state : State) (next_batch position : ℕ)
      → plan.sampler ≡ s
      → checkpoint_state sampler c (plan_of s) next_batch position ≡ ok state
      → ResumesAt plan state (sampler.epoch s) next_batch position
  restore_plan-ResumesAt plan state next_batch position same h =
      let (boundary, saved) = checkpoint_state-valid state next_batch position h in
      rw same (
        restore_plan-resumes plan.drop_last plan.batch_size state (sampler.epoch s) next_batch
          position boundary (law.accepts position state saved))
