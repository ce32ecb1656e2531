-- ===== src/Sampler/Checkpoint/Subset.antt =====
-- `impl SamplerCheckpoint for SubsetRandomSampler` of crates/rusttorch-data/src/sampler.rs, and
-- what each epoch of that sampler yields.
use rust_torch.Base.{
  ℕ, ◌≤◌, ◌≡◌, refl, none, arith, ◌==◌, List, [], ◌∷◌, length, usize_max, Perm, length-perm,
  eq_numbers, eq_numbers_refl, eq_of_eq_numbers, ◌⊎◌, inl, inr, Bool-cases, leb, u64_max,
}
use rust_torch.Error.{plain, RustTorchError}
use rust_torch.Outcome.{Outcome, ok, err, ◌>>=◌, ◌>>◌, traverse}
use rust_torch.Storage.{Allocator, try_vec, usize_size, try_vec_granted}
use rust_torch.Rng.{Rng, IsLawful}
use rust_torch.Sampler.Validate.{
  invalid_configuration, usize_to_u64, require_equal, validate_position, validate_epoch_position,
  epoch_seed,
}
use rust_torch.Sampler.Subset.{
  SubsetRandomSampler, new, shuffled_copy, indices_for_epoch, set_epoch, sampler,
}
use rust_torch.Sampler.Checkpoint.{SamplerCheckpoint, IsResumable, regenerate, regenerate-Resumed}

pub record SubsetRandomSamplerState : Type 0 where
  pub indices : List ℕ
  pub seed : ℕ
  pub epoch : ℕ
  pub position : ℕ

unfoldable pub source_to_u64 : List ℕ → Outcome RustTorchError (List ℕ)
source_to_u64 = traverse (λ i. usize_to_u64 i "sampler")

unfoldable pub checkpoint_state :
    SubsetRandomSampler → ℕ → Outcome RustTorchError SubsetRandomSamplerState
checkpoint_state s position = do
  length ← usize_to_u64 (length s.source) "sampler"
  validate_position position length
  indices ← source_to_u64 s.source
  ok (record { indices = indices; seed = s.seed; epoch = s.epoch; position = position })

unfoldable pub validate_checkpoint_state :
    SubsetRandomSampler → SubsetRandomSamplerState → ℕ → ℕ → Outcome RustTorchError (Unit {0})
validate_checkpoint_state s state epoch position = do
  expected ← source_to_u64 s.source
  require_equal eq_numbers "sampler" state.indices expected
  require_equal ◌==◌ "sampler" state.seed s.seed
  validate_epoch_position state.epoch state.position epoch position
  length ← usize_to_u64 (length state.indices) "sampler"
  validate_position state.position length

-- Conversion changes no index, or is refused.
source_cases :
    (xs : List ℕ) → (source_to_u64 xs ≡ ok xs) ⊎ ((e : RustTorchError) × (source_to_u64 xs ≡ err e))
unfolding source_to_u64
source_cases [] = inl refl
source_cases (x ∷ xs) = elim (Bool-cases (leb x u64_max)) [
  | inl small ↦ elim (source_cases xs) [
    | inl kept ↦ inl (rw (small, kept))
    | inr (e, bad) ↦ inr (e, rw (small, bad))
  ]
  | inr large ↦
      inr (
        invalid_configuration "sampler" (plain "value does not fit the checkpoint schema"),
        rw large,
      )
]

accepts :
    (s : SubsetRandomSampler) (position : ℕ) (state : SubsetRandomSamplerState)
    → checkpoint_state s position ≡ ok state
    → validate_checkpoint_state s state s.epoch position ≡ ok tt
unfolding checkpoint_state validate_checkpoint_state validate_position validate_epoch_position
accepts s position state h = ground (arith, source_cases s.source, eq_numbers_refl s.source)

accepted :
    (s : SubsetRandomSampler) (state : SubsetRandomSamplerState) (epoch position : ℕ)
    → validate_checkpoint_state s state epoch position ≡ ok tt
    → (state.epoch ≡ epoch)
      × (state.position ≡ position)
      × (position ≤ length s.source)
      × (position ≤ usize_max)
unfolding validate_checkpoint_state validate_position validate_epoch_position
accepted s state epoch position h =
    ground (arith, source_cases s.source, eq_of_eq_numbers state.indices s.source)

module _ (alloc : Allocator) (rng : Rng) where
  unfoldable pub restore_checkpoint_iter_validated :
      SubsetRandomSampler
      → SubsetRandomSamplerState
      → Outcome RustTorchError (List ℕ × SubsetRandomSampler)
  restore_checkpoint_iter_validated s state =
      regenerate (sampler alloc rng) s state.epoch state.position
        "validated subset sampler cursor is regenerable"

  unfoldable pub checkpoint : SamplerCheckpoint SubsetRandomSampler SubsetRandomSamplerState
  checkpoint = record {
    kind = λ s. "subset_random";
    checkpoint_kind_from_state = λ state. "subset_random";
    checkpoint_state = checkpoint_state;
    validate_checkpoint_state = validate_checkpoint_state;
    restore_checkpoint_iter_validated = restore_checkpoint_iter_validated;
    distributed_configuration = λ s. none;
    checkpoint_distributed_configuration_from_state = λ state. ok none;
  }

  module _ (law : IsLawful rng) (s : SubsetRandomSampler) {fresh : SubsetRandomSampler}
      (built : new alloc rng s.source s.seed ≡ ok fresh) where
    storage : alloc usize_size (length s.source) ≡ none
    unfolding new shuffled_copy try_vec
    storage = ground arith

    -- With a lawful generator, a sampler whose configuration can be built yields in every epoch,
    -- without a panic, a permutation of its source, in direct iteration as in a fresh iterator.
    pub set_epoch-perm :
        (epoch : ℕ)
        → (xs : List ℕ) × (set_epoch alloc rng s epoch
            ≡ ok (record s { epoch = epoch; indices = xs }))
          × ((sampler alloc rng).iter (record s { epoch = epoch; indices = xs }) ≡ ok xs)
          × Perm xs s.source
    unfolding set_epoch sampler indices_for_epoch shuffled_copy
    set_epoch-perm epoch =
        let granted =
          try_vec_granted {A = ℕ} alloc usize_size (length s.source) "indices" storage in
        (
          (rng.shuffle s.source (rng.seed_from_u64 (epoch_seed s.seed epoch))).0,
          rw granted,
          rw granted,
          law.shuffle-perm s.source (rng.seed_from_u64 (epoch_seed s.seed epoch)),
        )

    -- With a lawful generator, a subset sampler whose configuration can be built is resumable, at
    -- whatever epoch it stands.
    pub subset-IsResumable : IsResumable (sampler alloc rng) checkpoint s (length s.source)
    unfolding sampler checkpoint restore_checkpoint_iter_validated
    subset-IsResumable = record {
      exact = refl;
      accepts = accepts s;
      resumes = λ state epoch position v.
          let (e, p, inside, small) = accepted s state epoch position v in
          rw (e, p)
            (regenerate-Resumed (sampler alloc rng) s (length s.source) epoch position _
              (λ at.
                let (xs, run, it, perm) = set_epoch-perm at in (_, xs, run, it, length-perm perm))
              inside small);
    }
