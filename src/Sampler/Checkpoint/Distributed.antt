-- ===== src/Sampler/Checkpoint/Distributed.antt =====
-- `impl SamplerCheckpoint for DistributedSampler` of crates/rusttorch-data/src/sampler.rs.
use rust_torch.Base.{
  ℕ, ◌≤◌, ◌≡◌, refl, ◌∙◌, Bool, some, arith, ◌==◌, eq_bool, eq_bool_refl, List, length, usize_max,
}
use rust_torch.Error.{RustTorchError}
use rust_torch.Outcome.{Outcome, ok, ◌>>=◌, ◌>>◌}
use rust_torch.Storage.{Allocator}
use rust_torch.Rng.{Rng, IsLawful}
use rust_torch.Sampler.Validate.{
  usize_to_u64, u64_to_usize, require_equal, validate_position, validate_epoch_position, epoch_seed,
}
use rust_torch.Sampler.Distributed.{DistributedSampler, new, indices_for_epoch, set_epoch, sampler}
use rust_torch.Sampler.Distributed.Elements.{sample-CountBounds}
use rust_torch.Sampler.Distributed.Epochs.{
  new-eq-ok, distributed_indices-Fits, distributed_indices-IsShare,
}
use rust_torch.Sampler.Checkpoint.{
  DistributedConfiguration, SamplerCheckpoint, Regenerates, IsResumable, regenerate,
  regenerate-Resumed,
}

pub record DistributedSamplerState : Type 0 where
  pub length : ℕ
  pub replicas : ℕ
  pub rank : ℕ
  pub shuffle : Bool
  pub seed : ℕ
  pub drop_last : Bool
  pub epoch : ℕ
  pub position : ℕ

unfoldable pub checkpoint_state :
    DistributedSampler → ℕ → Outcome RustTorchError DistributedSamplerState
checkpoint_state s position = do
  num_samples ← usize_to_u64 s.num_samples "sampler"
  validate_position position num_samples
  length ← usize_to_u64 s.length "sampler"
  replicas ← usize_to_u64 s.replicas "sampler"
  rank ← usize_to_u64 s.rank "sampler"
  ok (record {
    length = length;
    replicas = replicas;
    rank = rank;
    shuffle = s.shuffle;
    seed = s.seed;
    drop_last = s.drop_last;
    epoch = s.epoch;
    position = position;
  })

unfoldable pub validate_checkpoint_state :
    DistributedSampler → DistributedSamplerState → ℕ → ℕ → Outcome RustTorchError (Unit {0})
validate_checkpoint_state s state epoch position = do
  length ← usize_to_u64 s.length "sampler"
  require_equal ◌==◌ "sampler" state.length length
  replicas ← usize_to_u64 s.replicas "sampler"
  require_equal ◌==◌ "sampler" state.replicas replicas
  rank ← usize_to_u64 s.rank "sampler"
  require_equal ◌==◌ "sampler" state.rank rank
  require_equal eq_bool "sampler" state.shuffle s.shuffle
  require_equal ◌==◌ "sampler" state.seed s.seed
  require_equal eq_bool "sampler" state.drop_last s.drop_last
  validate_epoch_position state.epoch state.position epoch position
  num_samples ← usize_to_u64 s.num_samples "sampler"
  validate_position state.position num_samples

unfoldable pub distributed_configuration : DistributedSampler → DistributedConfiguration
distributed_configuration s = record {
  replicas = s.replicas;
  rank = s.rank;
  shuffle = s.shuffle;
  seed = s.seed;
  drop_last = s.drop_last;
}

unfoldable pub distributed_configuration_from_state :
    DistributedSamplerState → Outcome RustTorchError DistributedConfiguration
distributed_configuration_from_state state = do
  replicas ← u64_to_usize state.replicas "sampler"
  rank ← u64_to_usize state.rank "sampler"
  ok (record {
    replicas = replicas;
    rank = rank;
    shuffle = state.shuffle;
    seed = state.seed;
    drop_last = state.drop_last;
  })

accepts :
    (s : DistributedSampler) (position : ℕ) (state : DistributedSamplerState)
    → checkpoint_state s position ≡ ok state
    → validate_checkpoint_state s state s.epoch position ≡ ok tt
unfolding checkpoint_state validate_checkpoint_state validate_position validate_epoch_position
accepts s position state h = ground (arith, eq_bool_refl s.shuffle, eq_bool_refl s.drop_last)

accepted :
    (s : DistributedSampler) (state : DistributedSamplerState) (epoch position : ℕ)
    → validate_checkpoint_state s state epoch position ≡ ok tt
    → (state.epoch ≡ epoch)
      × (state.position ≡ position)
      × (position ≤ s.num_samples)
      × (position ≤ usize_max)
unfolding validate_checkpoint_state validate_position validate_epoch_position
accepted s state epoch position h = ground arith

-- The distributed identity that a saved state carries is that of the sampler which saved it.
pub distributed_configuration-from_state :
    (s : DistributedSampler) (position : ℕ) (state : DistributedSamplerState)
    → checkpoint_state s position ≡ ok state
    → distributed_configuration_from_state state ≡ ok (distributed_configuration s)
unfolding checkpoint_state distributed_configuration_from_state distributed_configuration
    validate_position
distributed_configuration-from_state s position state h = ground arith

module _ (alloc : Allocator) (rng : Rng) where
  unfoldable pub restore_checkpoint_iter_validated :
      DistributedSampler
      → DistributedSamplerState
      → Outcome RustTorchError (List ℕ × DistributedSampler)
  restore_checkpoint_iter_validated s state =
      regenerate (sampler alloc rng) s state.epoch state.position
        "validated distributed sampler cursor is regenerable"

  unfoldable pub checkpoint : SamplerCheckpoint DistributedSampler DistributedSamplerState
  checkpoint = record {
    kind = λ s. "distributed";
    checkpoint_kind_from_state = λ state. "distributed";
    checkpoint_state = checkpoint_state;
    validate_checkpoint_state = validate_checkpoint_state;
    restore_checkpoint_iter_validated = restore_checkpoint_iter_validated;
    distributed_configuration = λ s. some (distributed_configuration s);
    checkpoint_distributed_configuration_from_state = λ state. do
      c ← distributed_configuration_from_state state
      ok (some c);
  }

  module _ (law : IsLawful rng) (s : DistributedSampler) {fresh : DistributedSampler}
      (built : new alloc rng s.length s.replicas s.rank s.shuffle s.seed s.drop_last ≡ ok fresh)
      (counted : fresh.num_samples ≡ s.num_samples) where
    regenerates : Regenerates (sampler alloc rng) s s.num_samples
    unfolding sampler set_epoch indices_for_epoch
    regenerates epoch =
        let (inside, count, run, _) =
          new-eq-ok rng alloc s.length s.replicas s.rank s.shuffle s.seed s.drop_last built in
        let n = fresh.num_samples in
        let b = sample-CountBounds s.length s.replicas s.drop_last (omega arith) count in
        let f =
          distributed_indices-Fits rng alloc s.length s.replicas s.rank s.shuffle s.drop_last n
            s.seed run in
        let (xs, run', d) =
          distributed_indices-IsShare rng alloc s.length s.replicas s.rank s.shuffle s.drop_last n
            law (epoch_seed s.seed epoch) inside b f in
        (
          record s { epoch = epoch; indices = xs },
          xs,
          rw (← counted, run'),
          rw (← counted, run'),
          d.size ∙ counted,
        )

    -- With a lawful generator, a distributed sampler whose configuration can be built with the
    -- number of samples that it has is resumable, at whatever epoch it stands.
    pub distributed-IsResumable : IsResumable (sampler alloc rng) checkpoint s s.num_samples
    unfolding sampler checkpoint restore_checkpoint_iter_validated
    distributed-IsResumable = record {
      exact = refl;
      accepts = accepts s;
      resumes = λ state epoch position v.
          let (e, p, inside, small) = accepted s state epoch position v in
          rw (e, p)
            (regenerate-Resumed (sampler alloc rng) s s.num_samples epoch position _ regenerates
              inside small);
    }
