-- ===== src/Sampler/Checkpoint/Weighted.antt =====
-- `impl SamplerCheckpoint for WeightedRandomSampler` of crates/rusttorch-data/src/sampler.rs.
use rust_torch.Base.{
  ℕ, zero, suc, ◌≤◌, ◌≡◌, refl, ap, Bool, true, false, none, String, arith, ◌==◌, eq_bool,
  eq_bool_refl, List, map, length, usize_max, eq_numbers, eq_numbers_refl, if◌then◌else◌,
}
use rust_torch.Error.{RustTorchError}
use rust_torch.Outcome.{Outcome, ok, ◌>>=◌, ◌>>◌}
use rust_torch.Storage.{Allocator, usize_size, try_vec, try_vec_granted}
use rust_torch.Rng.{Rng, IsLawful}
use rust_torch.Float.{F64, HasSigns}
use rust_torch.Sampler.Validate.{
  usize_to_u64, require_equal, validate_position, validate_epoch_position, epoch_seed,
  validate_positive,
}
use rust_torch.Sampler.Weighted.{
  WeightedRng, WeightedRandomSampler, samples, weighted_indices, validate_weights, new,
  indices_for_epoch, set_epoch, sampler,
}
use rust_torch.Sampler.Weighted.Positions.{validate_weights-IsWeight}
use rust_torch.Sampler.Weighted.Selection.{weighted_indices-Fits, weighted_indices-IsSelection}
use rust_torch.Sampler.Checkpoint.{
  SamplerCheckpoint, Regenerates, IsResumable, regenerate, regenerate-Resumed,
}

pub record WeightedRandomSamplerState : Type 0 where
  pub weight_bits : List ℕ
  pub num_samples : ℕ
  pub replacement : Bool
  pub seed : ℕ
  pub epoch : ℕ
  pub position : ℕ

abbrev pub kind : Bool → String
kind replacement = if replacement then "weighted_random_replacement" else "weighted_random"

module _ (f : F64) {D : Type 0} where
  unfoldable pub checkpoint_state :
      WeightedRandomSampler f D → ℕ → Outcome RustTorchError WeightedRandomSamplerState
  checkpoint_state s position = do
    num_samples ← usize_to_u64 s.num_samples "sampler"
    validate_position position num_samples
    ok (record {
      weight_bits = map f.to_bits s.weights;
      num_samples = num_samples;
      replacement = s.replacement;
      seed = s.seed;
      epoch = s.epoch;
      position = position;
    })

  unfoldable pub validate_checkpoint_state :
      WeightedRandomSampler f D
      → WeightedRandomSamplerState
      → ℕ
      → ℕ
      → Outcome RustTorchError (Unit {0})
  validate_checkpoint_state s state epoch position = do
    let expected = map f.to_bits s.weights
    require_equal eq_numbers "sampler" state.weight_bits expected
    num_samples ← usize_to_u64 s.num_samples "sampler"
    require_equal ◌==◌ "sampler" state.num_samples num_samples
    require_equal eq_bool "sampler" state.replacement s.replacement
    require_equal ◌==◌ "sampler" state.seed s.seed
    validate_epoch_position state.epoch state.position epoch position
    validate_position state.position state.num_samples

  accepts :
      (s : WeightedRandomSampler f D) (position : ℕ) (state : WeightedRandomSamplerState)
      → checkpoint_state s position ≡ ok state
      → validate_checkpoint_state s state s.epoch position ≡ ok tt
  unfolding checkpoint_state validate_checkpoint_state validate_position validate_epoch_position
  accepts s position state h =
      ground (arith, eq_bool_refl s.replacement, eq_numbers_refl (map f.to_bits s.weights))

  accepted :
      (s : WeightedRandomSampler f D) (state : WeightedRandomSamplerState) (epoch position : ℕ)
      → validate_checkpoint_state s state epoch position ≡ ok tt
      → (state.epoch ≡ epoch)
        × (state.position ≡ position)
        × (position ≤ s.num_samples)
        × (position ≤ usize_max)
  unfolding validate_checkpoint_state validate_position validate_epoch_position
  accepted s state epoch position h = ground arith

module _ (alloc : Allocator) (f : F64) (rng : Rng) (dist : WeightedRng f rng) where
  unfoldable pub restore_checkpoint_iter_validated :
      WeightedRandomSampler f dist.WeightedIndex
      → WeightedRandomSamplerState
      → Outcome RustTorchError (List ℕ × WeightedRandomSampler f dist.WeightedIndex)
  restore_checkpoint_iter_validated s state =
      regenerate (sampler alloc f rng dist) s state.epoch state.position
        "validated weighted sampler cursor is regenerable"

  unfoldable pub checkpoint :
      SamplerCheckpoint (WeightedRandomSampler f dist.WeightedIndex) WeightedRandomSamplerState
  checkpoint = record {
    kind = λ s. kind s.replacement;
    checkpoint_kind_from_state = λ state. kind state.replacement;
    checkpoint_state = checkpoint_state f;
    validate_checkpoint_state = validate_checkpoint_state f;
    restore_checkpoint_iter_validated = restore_checkpoint_iter_validated;
    distributed_configuration = λ s. none;
    checkpoint_distributed_configuration_from_state = λ state. ok none;
  }

  length-samples :
      (n : ℕ) (d : dist.WeightedIndex) (state : rng.State)
      → length (samples alloc f rng dist n d state) ≡ n
  unfolding samples
  length-samples zero d state = refl
  length-samples (suc n) d state = ap suc (length-samples n d (dist.sample d state).1)

  module _ (law : IsLawful rng) (signs : HasSigns f) where
    -- Where one seed yields indices, every seed does, and `num` of them.
    again :
        (r : Bool) (ws : List f.Float) (num seed seed' : ℕ) (d : dist.WeightedIndex) {xs : List ℕ}
        → validate_weights f ws ≡ ok tt
        → (r ≡ false → num ≤ length ws)
        → weighted_indices alloc f rng dist ws num r seed d ≡ ok xs
        → (ys : List ℕ) × (weighted_indices alloc f rng dist ws num r seed' d ≡ ok ys)
          × (length ys ≡ num)
    unfolding weighted_indices
    again true ws num seed seed' d valid fits h =
        let g : alloc usize_size num ≡ none = unfold try_vec in ground arith in
        (
          samples alloc f rng dist num d (rng.seed_from_u64 seed'),
          rw (try_vec_granted {A = ℕ} alloc usize_size num "num_samples" g),
          length-samples num d (rng.seed_from_u64 seed'),
        )
    again false ws num seed seed' d valid fits h =
        let g = weighted_indices-Fits alloc f rng law dist ws num seed d h in
        let (ys, run, sel) =
          weighted_indices-IsSelection alloc f rng law dist signs ws num seed' d
            (validate_weights-IsWeight f ws valid) (fits refl) g.entries g.output g.zeros in
        (ys, run, sel.drawn)

    module _ (s : WeightedRandomSampler f dist.WeightedIndex)
        {fresh : WeightedRandomSampler f dist.WeightedIndex}
        (built : new alloc f rng dist s.weights s.num_samples s.replacement s.seed ≡ ok fresh)
        (same : fresh.distribution ≡ s.distribution) where
      built_parts :
          (validate_weights f s.weights ≡ ok tt)
          × (s.replacement ≡ false → s.num_samples ≤ length s.weights)
          × (weighted_indices alloc f rng dist s.weights s.num_samples s.replacement s.seed
                s.distribution
              ≡ ok fresh.indices)
      unfolding new validate_positive
      built_parts = ground arith

      regenerates : Regenerates (sampler alloc f rng dist) s s.num_samples
      unfolding sampler set_epoch indices_for_epoch
      regenerates epoch =
          let (valid, fits, run) = built_parts in
          let (ys, run', size) =
            again s.replacement s.weights s.num_samples s.seed (epoch_seed s.seed epoch)
              s.distribution valid fits run in
          (record s { epoch = epoch; indices = ys }, ys, rw run', rw run', size)

      -- With a lawful generator and floats with signs, a weighted sampler whose configuration can
      -- be built with the distribution that it has is resumable, at whatever epoch it stands.
      pub weighted-IsResumable : IsResumable (sampler alloc f rng dist) checkpoint s s.num_samples
      unfolding sampler checkpoint restore_checkpoint_iter_validated
      weighted-IsResumable = record {
        exact = refl;
        accepts = accepts f s;
        resumes = λ state epoch position v.
            let (e, p, inside, small) = accepted f s state epoch position v in
            rw (e, p)
              (regenerate-Resumed (sampler alloc f rng dist) s s.num_samples epoch position _
                regenerates inside small);
      }
