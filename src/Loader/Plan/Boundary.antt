-- ===== src/Loader/Plan/Boundary.antt =====
-- `validate_auto_batch_boundary` against the boundaries of the sampler's batches.
use native.Mathlib.Nat.{div-add-mod', mul-mod_left, mul-div_cancel}
use rust_torch.Base.{ℕ, ◌/◌, ◌%◌, ◌≤◌, ◌<◌, ◌≡◌, ap, ◌∙◌, ◌↔◌, inl, inr, Bool, some, arith, u64_max}
use rust_torch.Outcome.{ok}
use rust_torch.Sampler.Validate.{batch_count}
use rust_torch.Sampler.Checkpoint.Batch.Boundary.{IsAligned, IsBoundary}
use rust_torch.Loader.Plan.{validate_auto_batch_boundary}

pub IsBoundary-of_accepted :
    (len size : ℕ) (drop_last : Bool) (next_batch position : ℕ)
    → 0 < size
    → validate_auto_batch_boundary (some len) size drop_last next_batch position ≡ ok tt
    → IsBoundary len size drop_last next_batch position
unfolding validate_auto_batch_boundary batch_count
IsBoundary-of_accepted len size drop_last next_batch position pos h =
    ground (arith, div-add-mod' position size)

IsBoundary-accepted :
    (len size : ℕ) (drop_last : Bool) (next_batch position : ℕ)
    → 0 < size
    → size ≤ u64_max
    → len ≤ u64_max
    → IsAligned len size drop_last next_batch position
    → position ≤ len
    → validate_auto_batch_boundary (some len) size drop_last next_batch position ≡ ok tt
unfolding validate_auto_batch_boundary batch_count
IsBoundary-accepted len size drop_last next_batch position pos h k (inl e) inside = ground (
  arith,
  ap (λ (p : ℕ). p % size) e ∙ mul-mod_left next_batch size,
  ap (λ (p : ℕ). p / size) e ∙ mul-div_cancel next_batch pos,
)
IsBoundary-accepted len size drop_last next_batch position pos h k (inr (d, e, n)) inside =
    ground (arith)

-- For a sampler of known length and a batch size above 0, both within `u64`, the plan accepts exactly
-- the boundaries of the batches, within the sequence.
pub validate_auto_batch_boundary-IsBoundary :
    (len size : ℕ) (drop_last : Bool) (next_batch position : ℕ)
    → 0 < size
    → size ≤ u64_max
    → len ≤ u64_max
    → (validate_auto_batch_boundary (some len) size drop_last next_batch position ≡ ok tt)
      ↔ IsBoundary len size drop_last next_batch position
validate_auto_batch_boundary-IsBoundary len size drop_last next_batch position pos h k = (
  λ e. IsBoundary-of_accepted len size drop_last next_batch position pos e,
  λ (b, inside). IsBoundary-accepted len size drop_last next_batch position pos h k b inside,
)
