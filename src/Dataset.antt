-- ===== src/Dataset.antt =====
-- The trait `Dataset` of crates/rusttorch-data/src/lib.rs with its default methods and the iterator
-- of its samples. The adapters of dataset.rs are the children.
pub mod Concat
pub mod Subset
pub mod Split
pub mod Batches
use rust_torch.Base.{ℕ, suc, Bool, Option, none, some, List, leb, ◌==◌, if◌then◌else◌}
use rust_torch.Outcome.{Outcome, traverse}

-- `len` and `get` of an implementation with samples in `S` and errors in `E`.
pub record Dataset {ℓ κ} (S : Type ℓ) (E : Type κ) : Type (ℓ ⊔ κ) where
  pub len : ℕ
  pub get : ℕ → Outcome E S

module _ {ℓ κ} {S : Type ℓ} {E : Type κ} where
  unfoldable pub get_batch : Dataset S E → List ℕ → Outcome E (List S)
  get_batch d indices = traverse d.get indices

  unfoldable pub is_empty : Dataset S E → Bool
  is_empty d = d.len == 0

pub record DatasetSamples {ℓ κ} (S : Type ℓ) (E : Type κ) : Type (ℓ ⊔ κ) where
  pub dataset : Dataset S E
  pub next_index : ℕ

module _ {ℓ κ} {S : Type ℓ} {E : Type κ} where
  unfoldable pub samples : Dataset S E → DatasetSamples S E
  samples d = record { dataset = d; next_index = 0 }

  unfoldable pub next : DatasetSamples S E → Option (Outcome E S) × DatasetSamples S E
  next s =
      if leb s.dataset.len s.next_index
      then (none, s)
      else (some (s.dataset.get s.next_index), record s { next_index = suc s.next_index })
