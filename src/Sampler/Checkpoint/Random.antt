-- ===== src/Sampler/Checkpoint/Random.antt =====
-- `impl SamplerCheckpoint for RandomSampler` of crates/rusttorch-data/src/sampler.rs.
use rust_torch.Base.{
  ℕ, ◌≤◌, ◌≡◌, refl, Bool, true, false, none, String, arith, ◌==◌, List, length, usize_max,
}
use rust_torch.Error.{RustTorchError}
use rust_torch.Outcome.{Outcome, ok, ◌>>=◌, ◌>>◌}
use rust_torch.Storage.{Allocator}
use rust_torch.Rng.{Rng, IsLawful}
use rust_torch.Sampler.Validate.{
  usize_to_u64, require_equal, validate_position, validate_epoch_position, epoch_seed,
}
use rust_torch.Sampler.Random.{
  Replacement, with_replacement, without_replacement, RandomSampler, build, indices_for_epoch,
  set_epoch, sampler,
}
use rust_torch.Sampler.Random.Epochs.{
  Drawn, build-eq-ok, random_indices-Granted, random_indices-Drawn,
}
use rust_torch.Sampler.Checkpoint.{
  SamplerCheckpoint, Regenerates, IsResumable, regenerate, regenerate-Resumed,
}

pub data RandomReplacement : Type 0 where
  with_mode without_mode : RandomReplacement

pub record RandomSamplerState : Type 0 where
  pub length : ℕ
  pub num_samples : ℕ
  pub replacement : RandomReplacement
  pub seed : ℕ
  pub epoch : ℕ
  pub position : ℕ

abbrev pub stored : Replacement → RandomReplacement
stored with_replacement = with_mode
stored without_replacement = without_mode

-- The derived `==`.
abbrev pub eq_replacement : RandomReplacement → RandomReplacement → Bool
eq_replacement with_mode with_mode = true
eq_replacement without_mode without_mode = true
eq_replacement _ _ = false

abbrev pub kind : Replacement → String
kind with_replacement = "random_replacement"
kind without_replacement = "random"

abbrev pub kind_from_state : RandomReplacement → String
kind_from_state with_mode = "random_replacement"
kind_from_state without_mode = "random"

unfoldable pub checkpoint_state : RandomSampler → ℕ → Outcome RustTorchError RandomSamplerState
checkpoint_state s position = do
  num_samples ← usize_to_u64 s.num_samples "sampler"
  validate_position position num_samples
  length ← usize_to_u64 s.length "sampler"
  ok (record {
    length = length;
    num_samples = num_samples;
    replacement = stored s.replacement;
    seed = s.seed;
    epoch = s.epoch;
    position = position;
  })

unfoldable pub validate_checkpoint_state :
    RandomSampler → RandomSamplerState → ℕ → ℕ → Outcome RustTorchError (Unit {0})
validate_checkpoint_state s state epoch position = do
  length ← usize_to_u64 s.length "sampler"
  require_equal ◌==◌ "sampler" state.length length
  num_samples ← usize_to_u64 s.num_samples "sampler"
  require_equal ◌==◌ "sampler" state.num_samples num_samples
  require_equal eq_replacement "sampler" state.replacement (stored s.replacement)
  require_equal ◌==◌ "sampler" state.seed s.seed
  validate_epoch_position state.epoch state.position epoch position
  validate_position state.position state.num_samples

eq_replacement_refl : (r : Replacement) → eq_replacement (stored r) (stored r) ≡ true
eq_replacement_refl with_replacement = refl
eq_replacement_refl without_replacement = refl

accepts :
    (s : RandomSampler) (position : ℕ) (state : RandomSamplerState)
    → checkpoint_state s position ≡ ok state
    → validate_checkpoint_state s state s.epoch position ≡ ok tt
unfolding checkpoint_state validate_checkpoint_state validate_position validate_epoch_position
accepts s position state h = ground (arith, eq_replacement_refl s.replacement)

accepted :
    (s : RandomSampler) (state : RandomSamplerState) (epoch position : ℕ)
    → validate_checkpoint_state s state epoch position ≡ ok tt
    → (state.epoch ≡ epoch)
      × (state.position ≡ position)
      × (position ≤ s.num_samples)
      × (position ≤ usize_max)
unfolding validate_checkpoint_state validate_position validate_epoch_position
accepted s state epoch position h = ground arith

module _ (alloc : Allocator) (rng : Rng) where
  unfoldable pub restore_checkpoint_iter_validated :
      RandomSampler → RandomSamplerState → Outcome RustTorchError (List ℕ × RandomSampler)
  restore_checkpoint_iter_validated s state =
      regenerate (sampler alloc rng) s state.epoch state.position
        "validated random sampler cursor is regenerable"

  unfoldable pub checkpoint : SamplerCheckpoint RandomSampler RandomSamplerState
  checkpoint = record {
    kind = λ s. kind s.replacement;
    checkpoint_kind_from_state = λ state. kind_from_state state.replacement;
    checkpoint_state = checkpoint_state;
    validate_checkpoint_state = validate_checkpoint_state;
    restore_checkpoint_iter_validated = restore_checkpoint_iter_validated;
    distributed_configuration = λ s. none;
    checkpoint_distributed_configuration_from_state = λ state. ok none;
  }

  module _ (law : IsLawful rng) where
    length-Drawn :
        (r : Replacement) (len num : ℕ) (xs : List ℕ) → Drawn r len num xs → length xs ≡ num
    length-Drawn with_replacement len num xs d = d.0
    length-Drawn without_replacement len num xs d = d.drawn

    regenerates :
        (s : RandomSampler) {fresh : RandomSampler}
        → build alloc rng s.length s.num_samples s.replacement s.seed ≡ ok fresh
        → Regenerates (sampler alloc rng) s s.num_samples
    unfolding sampler set_epoch indices_for_epoch
    regenerates s h epoch =
        let (pos, _, run, _) =
          build-eq-ok rng law alloc s.length s.num_samples s.replacement s.seed h in
        let (xs, run', d) =
          random_indices-Drawn rng law alloc s.length s.num_samples s.replacement
            (epoch_seed s.seed epoch) pos
            (random_indices-Granted rng law alloc s.length s.num_samples s.replacement s.seed
              run) in
        (
          record s { epoch = epoch; indices = xs },
          xs,
          rw run',
          rw run',
          length-Drawn s.replacement s.length s.num_samples xs d,
        )

    -- With a lawful generator, a random sampler whose configuration can be built is resumable, at
    -- whatever epoch it stands: a state that it saves it accepts at its own epoch, and a state that
    -- it accepts resumes the sequence of its epoch at its position.
    pub random-IsResumable :
        (s : RandomSampler) {fresh : RandomSampler}
        → build alloc rng s.length s.num_samples s.replacement s.seed ≡ ok fresh
        → IsResumable (sampler alloc rng) checkpoint s s.num_samples
    unfolding sampler checkpoint restore_checkpoint_iter_validated
    random-IsResumable s h = record {
      exact = refl;
      accepts = accepts s;
      resumes = λ state epoch position v.
          let (e, p, inside, small) = accepted s state epoch position v in
          rw (e, p)
            (regenerate-Resumed (sampler alloc rng) s s.num_samples epoch position _
              (regenerates s h) inside small);
    }
