-- ===== src/Dataset/Concat.antt =====
-- `ConcatDataset` of crates/rusttorch-data/src/dataset.rs.
pub mod Lookup
use rust_torch.Base.{
  ℕ, zero, suc, ◌+◌, ◌-◌, Bool, true, false, Option, none, some, List, [], ◌∷◌, leb, ◌==◌,
  if◌then◌else◌, length, checked_add, checked_sub,
}
use rust_torch.Error.{RustTorchError, plain}
use rust_torch.Outcome.{Outcome, ok, err, panic, ◌>>=◌, ◌>>◌, fail_if, ok_or, index}
use rust_torch.Sampler.Validate.{invalid_configuration}
use rust_torch.Dataset.{Dataset}

pub record ConcatDataset {ℓ κ} (S : Type ℓ) (E : Type κ) : Type (ℓ ⊔ κ) where
  pub datasets : List (Dataset S E)
  pub cumulative_sizes : List ℕ

-- `partition_point(|&size| size <= i)` of the standard library, on sizes that never fall.
unfoldable pub partition_point : List ℕ → ℕ → ℕ
partition_point [] i = 0
partition_point (size ∷ sizes) i = if leb size i then suc (partition_point sizes i) else 0

unfoldable pub last : List ℕ → ℕ → ℕ
last [] otherwise = otherwise
last (size ∷ sizes) otherwise = last sizes size

unfoldable pub previous_size {κ} : {E : Type κ} → List ℕ → ℕ → Outcome E ℕ
previous_size sizes dataset_index = elim (checked_sub dataset_index 1) [
  | none ↦ ok 0
  | some previous ↦ index sizes previous
]

module _ {ℓ κ} {S : Type ℓ} {E : Type κ} where
  -- The closure that `new` maps over the datasets, from the total so far.
  unfoldable pub cumulate : ℕ → List (Dataset S E) → Outcome RustTorchError (List ℕ)
  cumulate total [] = ok []
  cumulate total (d ∷ ds) = do
    total' ←
        ok_or (checked_add total d.len)
          (invalid_configuration "datasets" (plain "combined length overflows usize"))
    sizes ← cumulate total' ds
    ok (total' ∷ sizes)

  unfoldable pub new : List (Dataset S E) → Outcome RustTorchError (ConcatDataset S E)
  new datasets = do
    fail_if (length datasets == 0) (invalid_configuration "datasets" (plain "must not be empty"))
    sizes ← cumulate 0 datasets
    ok (record { datasets = datasets; cumulative_sizes = sizes })

  unfoldable pub len : ConcatDataset S E → ℕ
  len c = last c.cumulative_sizes 0

  unfoldable pub get : ConcatDataset S E → ℕ → Outcome E S
  get c i = do
    let dataset_index = partition_point c.cumulative_sizes i
    previous ← previous_size c.cumulative_sizes dataset_index
    d ← index c.datasets dataset_index
    elim (checked_sub i previous) [
      | none ↦ panic "attempt to subtract with overflow"
      | some j ↦ d.get j
    ]
