-- ===== src/Sampler/Batch.antt =====
-- `BatchSampler` of crates/rusttorch-data/src/sampler.rs: groups the indices of a sampler.
pub mod Slices
pub mod Partition
use rust_torch.Base.{
  ℕ, zero, suc, ◌-◌, Bool, not, ◌||◌, Option, none, some, List, [], ◌∷◌, ◌==◌, if◌then◌else◌,
  length, take, drop, String,
}
use mathlib.Core.Option
use rust_torch.Error.{RustTorchError}
use rust_torch.Outcome.{Outcome, ok, panic, ◌>>=◌, expect}
use rust_torch.Storage.{Allocator, try_vec, usize_size}
use rust_torch.Sampler.Validate.{validate_batch_size, batch_count}
use rust_torch.Sampler.Traits.{Sampler, BatchSource}

pub record BatchSampler (S : Type 0) : Type 0 where
  pub sampler : S
  pub batch_size : ℕ
  pub drop_last : Bool

unfoldable pub from_validated : {S : Type 0} → S → ℕ → Bool → BatchSampler S
from_validated sampler batch_size drop_last = record {
  sampler = sampler;
  batch_size = batch_size;
  drop_last = drop_last;
}

unfoldable pub new :
    {S : Type 0} → Allocator → S → ℕ → Bool → Outcome RustTorchError (BatchSampler S)
unfolding from_validated
new alloc sampler batch_size drop_last = do
  size ← validate_batch_size alloc batch_size
  ok (from_validated sampler size drop_last)

abbrev pub storage_message : String
storage_message = "batch storage dimensions were validated during construction"

-- A batch, and the sampler after it. The iterator inside is the list of what it has still to yield.
abbrev pub Step : Type 0
Step = Option (List ℕ) × BatchSampler (List ℕ)

-- `extend` with `by_ref().take(batch_size - 1)` moves that many indices, or those that are left.
unfoldable pub fill : BatchSampler (List ℕ) → ℕ → List ℕ → Step
fill b first rest =
    let batch = first ∷ take (b.batch_size - 1) rest in
    (
      if not b.drop_last || length batch == b.batch_size then some batch else none,
      record b { sampler = drop (b.batch_size - 1) rest },
    )

-- `Iterator::next`.
unfoldable pub next : Allocator → BatchSampler (List ℕ) → Outcome RustTorchError Step
unfolding fill
next alloc b = elim b.sampler [
  | [] ↦ ok (none, b)
  | first ∷ rest ↦ do
    _ ← expect (try_vec {A = ℕ} alloc usize_size b.batch_size "batch_size") storage_message
    ok (fill b first rest)
]

-- Calls of `next` until it returns `None`. Each but the last takes an index, so fuel above the
-- number of indices is enough; without it the model panics.
unfoldable pub collect :
    Allocator → ℕ → BatchSampler (List ℕ) → Outcome RustTorchError (List (List ℕ))
collect alloc zero b = panic "out of fuel"
collect alloc (suc fuel) b = next alloc b >>= λ r. elim r.0 [
  | none ↦ ok []
  | some batch ↦ collect alloc fuel r.1 >>= λ rest. ok (batch ∷ rest)
]

-- The `size_hint` of a list's iterator is exact.
unfoldable pub exact_len : BatchSampler (List ℕ) → Option ℕ
exact_len b = some (batch_count (length b.sampler) b.batch_size b.drop_last)

-- `impl BatchSource for BatchSampler<S>`.
unfoldable pub batch_source : {S : Type 0} → Allocator → Sampler S → BatchSource (BatchSampler S)
unfolding new
batch_source alloc s = record {
  iter = λ b. do
    indices ← s.iter b.sampler
    fresh ← expect (new alloc indices b.batch_size b.drop_last) storage_message
    collect alloc (suc (length indices)) fresh;
  exact_len = λ b. Option.map (λ n. batch_count n b.batch_size b.drop_last) (s.exact_len b.sampler);
  epoch = λ b. s.epoch b.sampler;
  set_epoch = λ b epoch. do
    sampler ← s.set_epoch b.sampler epoch
    ok (record b { sampler = sampler });
}
