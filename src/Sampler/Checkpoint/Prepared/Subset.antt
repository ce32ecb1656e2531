-- ===== src/Sampler/Checkpoint/Prepared/Subset.antt =====
-- `SubsetRandomSampler` of crates/rusttorch-data/src/sampler.rs at the start of an epoch.
use rust_torch.Base.{ℕ, List, [], ◌∷◌, All, length, le→leb, subst, ◌≤◌, ◌≡◌, refl, usize_max, arith}
use rust_torch.Outcome.{ok, >>=-eq-ok}
use rust_torch.Storage.{Allocator}
use rust_torch.Rng.{Rng, IsLawful}
use rust_torch.Sampler.Validate.{validate_position}
use rust_torch.Sampler.Subset
use rust_torch.Sampler.Subset.{SubsetRandomSampler}
use rust_torch.Sampler.Checkpoint.Subset as SubsetCheckpoint
use rust_torch.Sampler.Checkpoint.Subset.{
  SubsetRandomSamplerState, source_to_u64, subset-IsResumable,
}
use rust_torch.Sampler.Checkpoint.{IsPrepared}

source_to_u64-ok : (xs : List ℕ) → All (λ i. i ≤ usize_max) xs → source_to_u64 xs ≡ ok xs
unfolding source_to_u64
source_to_u64-ok [] h = refl
source_to_u64-ok (x ∷ xs) (small, h) = rw (le→leb x usize_max small, source_to_u64-ok xs h)

saves_subset :
    (s : SubsetRandomSampler) (position : ℕ)
    → length s.source ≤ usize_max
    → All (λ i. i ≤ usize_max) s.source
    → position ≤ length s.source
    → (state : SubsetRandomSamplerState) × (SubsetCheckpoint.checkpoint_state s position ≡ ok state)
unfolding SubsetCheckpoint.checkpoint_state validate_position
saves_subset s position h small inside = (
  record { indices = s.source; seed = s.seed; epoch = s.epoch; position = position },
  ground (arith, source_to_u64-ok s.source small),
)

-- A subset sampler that can be built, after a call of `set_epoch`; its indices are of `usize`.
pub subset-IsPrepared :
    (alloc : Allocator) (rng : Rng) (law : IsLawful rng) (s : SubsetRandomSampler) (epoch : ℕ)
    {fresh s' : SubsetRandomSampler}
    → Subset.new alloc rng s.source s.seed ≡ ok fresh
    → Subset.set_epoch alloc rng s epoch ≡ ok s'
    → length s.source ≤ usize_max
    → All (λ i. i ≤ usize_max) s.source
    → IsPrepared
        (Subset.sampler alloc rng)
        (SubsetCheckpoint.checkpoint alloc rng)
        s'
        (length s.source)
unfolding Subset.sampler SubsetCheckpoint.checkpoint Subset.set_epoch Subset.indices_for_epoch
subset-IsPrepared alloc rng law s epoch {s' = s'} built at h small =
    let (xs, run, same) =
      >>=-eq-ok (Subset.indices_for_epoch alloc rng (record s { epoch = epoch })) _ at in
    let made : record s { epoch = epoch; indices = xs } ≡ s' = cc same in
    subst
      (λ t.
        IsPrepared (Subset.sampler alloc rng) (SubsetCheckpoint.checkpoint alloc rng) t
          (length s.source))
      made
      (record {
        resumable =
            subset-IsResumable alloc rng law (record s { epoch = epoch; indices = xs }) built;
        saves =
            λ position. saves_subset (record s { epoch = epoch; indices = xs }) position h small;
        stands = rw run refl;
        bounded = h;
      })
