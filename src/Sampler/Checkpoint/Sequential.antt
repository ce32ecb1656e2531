-- ===== src/Sampler/Checkpoint/Sequential.antt =====
-- `impl SamplerCheckpoint for SequentialSampler` of crates/rusttorch-data/src/sampler.rs.
use rust_torch.Base.{
  ℕ, ◌+◌, ◌-◌, ◌≤◌, ◌≡◌, refl, ap, none, arith, ◌==◌, List, range, range_from, drop-range_from,
  length, length-range_from, usize_max, le→leb,
}
use rust_torch.Error.{RustTorchError}
use rust_torch.Outcome.{Outcome, ok, ◌>>=◌, ◌>>◌, expect}
use rust_torch.Sampler.Validate.{
  usize_to_u64, u64_to_usize, require_equal, validate_position, validate_epoch_position,
}
use rust_torch.Sampler.Sequential.{SequentialSampler, set_epoch, sampler}
use rust_torch.Sampler.Checkpoint.{SamplerCheckpoint, Resumed, IsResumable}

pub record SequentialSamplerState : Type 0 where
  pub length : ℕ
  pub epoch : ℕ
  pub position : ℕ

unfoldable pub checkpoint_state :
    SequentialSampler → ℕ → Outcome RustTorchError SequentialSamplerState
checkpoint_state s position = do
  length ← usize_to_u64 s.length "sampler"
  validate_position position length
  ok (record { length = length; epoch = s.epoch; position = position })

unfoldable pub validate_checkpoint_state :
    SequentialSampler → SequentialSamplerState → ℕ → ℕ → Outcome RustTorchError (Unit {0})
validate_checkpoint_state s state epoch position = do
  length ← usize_to_u64 s.length "sampler"
  require_equal ◌==◌ "sampler" state.length length
  validate_epoch_position state.epoch state.position epoch position
  validate_position state.position state.length

-- The range `position..length`.
unfoldable pub restore_checkpoint_iter_validated :
    SequentialSampler → SequentialSamplerState → Outcome RustTorchError (List ℕ × SequentialSampler)
restore_checkpoint_iter_validated s state = do
  let s' = set_epoch s state.epoch
  position ←
      expect (u64_to_usize state.position "sampler")
        "validated sequential sampler position fits usize"
  ok (range_from position (s'.length - position), s')

unfoldable pub checkpoint : SamplerCheckpoint SequentialSampler SequentialSamplerState
checkpoint = record {
  kind = λ s. "sequential";
  checkpoint_kind_from_state = λ state. "sequential";
  checkpoint_state = checkpoint_state;
  validate_checkpoint_state = validate_checkpoint_state;
  restore_checkpoint_iter_validated = restore_checkpoint_iter_validated;
  distributed_configuration = λ s. none;
  checkpoint_distributed_configuration_from_state = λ state. ok none;
}

accepts :
    (s : SequentialSampler) (position : ℕ) (state : SequentialSamplerState)
    → checkpoint_state s position ≡ ok state
    → validate_checkpoint_state s state s.epoch position ≡ ok tt
unfolding checkpoint_state validate_checkpoint_state validate_position validate_epoch_position
accepts s position state h = ground arith

accepted :
    (s : SequentialSampler) (state : SequentialSamplerState) (epoch position : ℕ)
    → validate_checkpoint_state s state epoch position ≡ ok tt
    → (state.epoch ≡ epoch)
      × (state.position ≡ position)
      × (position ≤ s.length)
      × (position ≤ usize_max)
unfolding validate_checkpoint_state validate_position validate_epoch_position
accepted s state epoch position h = ground arith

resumes :
    (s : SequentialSampler) (state : SequentialSamplerState) (epoch position : ℕ)
    → validate_checkpoint_state s state epoch position ≡ ok tt
    → Resumed sampler s s.length epoch position (restore_checkpoint_iter_validated s state)
unfolding sampler set_epoch restore_checkpoint_iter_validated
resumes s state epoch position h =
    let (e, p, inside, small) = accepted s state epoch position h in
    let from : 0 + position ≡ position = omega arith in
    (
      set_epoch s epoch,
      range s.length,
      refl,
      refl,
      length-range_from 0 s.length,
      inside,
      rw (e, p, le→leb position usize_max small)
          (ap (λ xs. ok (xs, set_epoch s epoch)) (rw (drop-range_from position 0 s.length, from))),
    )

-- A sequential sampler accepts at its own epoch every state that it saves, and from every state that it
-- accepts it resumes its sequence at the epoch and position of the call.
pub sequential-IsResumable : (s : SequentialSampler) → IsResumable sampler checkpoint s s.length
unfolding sampler checkpoint
sequential-IsResumable s = record { exact = refl; accepts = accepts s; resumes = resumes s }
