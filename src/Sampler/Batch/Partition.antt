-- ===== src/Sampler/Batch/Partition.antt =====
-- What iterating a `BatchSampler` yields (crates/rusttorch-data/src/sampler.rs).
use native.Mathlib.Decide.{dec_lt}
use rust_torch.Base.{
  ℕ, zero, suc, ◌-◌, ◌*◌, ◌/◌, ◌≤◌, ◌<◌, ◌≡◌, ap, ◌∙◌, sym, Bool, none, some, List, [], ◌∷◌, arith,
  length, take, drop, take_of_length-le, drop_of_length-le, if◌then◌else◌, flatten, All, length-map,
  length-range_from, range, length-take, length-drop, Bool-cases, inl, inr,
}
use rust_torch.Outcome.{ok}
use rust_torch.Storage.{Allocator, usize_size, try_vec, try_vec_granted}
use rust_torch.Sampler.Validate.{validate_batch_size}
use rust_torch.Sampler.Batch.{BatchSampler, collect, next, fill, new, exact_len}
use rust_torch.Sampler.Batch.Slices.{
  batch_at, batches, batches-nil, batches-step, batches_short_kept, batches_short_dropped, IsBatch,
  flatten-batches, batches-IsBatch,
}

module _ (size : ℕ) (drop_last : Bool) (pos : 0 < size) where
  abbrev pub over : List ℕ → BatchSampler (List ℕ)
  over xs = record { sampler = xs; batch_size = size; drop_last = drop_last }

  take-cons : (x : ℕ) (xs : List ℕ) → take size (x ∷ xs) ≡ x ∷ take (size - 1) xs
  take-cons x xs = let e : size ≡ suc (size - 1) = omega arith in ap (λ n. take n (x ∷ xs)) e

  drop-cons : (x : ℕ) (xs : List ℕ) → drop size (x ∷ xs) ≡ drop (size - 1) xs
  drop-cons x xs = let e : size ≡ suc (size - 1) = omega arith in ap (λ n. drop n (x ∷ xs)) e

  fill_full :
      (x : ℕ) (xs : List ℕ)
      → size ≤ length (x ∷ xs)
      → fill (over (x ∷ xs)) x xs ≡ (some (take size (x ∷ xs)), over (drop size (x ∷ xs)))
  unfolding fill over
  fill_full x xs h = ground (arith, take-cons x xs, drop-cons x xs, length-take (size - 1) xs)

  fill_short :
      (x : ℕ) (xs : List ℕ)
      → length (x ∷ xs) < size
      → fill (over (x ∷ xs)) x xs ≡ (if drop_last then none else some (x ∷ xs), over [])
  unfolding fill over
  fill_short x xs h = ground (
    arith,
    take_of_length-le (size - 1) xs,
    drop_of_length-le (size - 1) xs,
    length-take (size - 1) xs,
  )

module _ (alloc : Allocator) (size : ℕ) (drop_last : Bool) (pos : 0 < size)
    (granted : alloc usize_size size ≡ none) where
  next-cons :
      (x : ℕ) (xs : List ℕ)
      → next alloc (over size drop_last pos (x ∷ xs))
        ≡ ok (fill (over size drop_last pos (x ∷ xs)) x xs)
  unfolding next over
  next-cons x xs = rw (try_vec_granted {A = ℕ} alloc usize_size size "batch_size" granted)

  pub collect-over :
      (fuel : ℕ) (xs : List ℕ)
      → length xs < fuel
      → collect alloc fuel (over size drop_last pos xs) ≡ ok (batches size drop_last xs)
  unfolding collect
  collect-over zero xs h = absurd (omega arith)
  collect-over (suc fuel) [] h = unfold next over in rw (batches-nil {A = ℕ} size drop_last pos)
  collect-over (suc fuel) (x ∷ xs) h = elim (dec_lt (length (x ∷ xs)) size) [
    | yes short ↦ elim (Bool-cases drop_last) [
      | inl e ↦ ground (
        arith,
        next-cons x xs,
        fill_short size drop_last pos x xs short,
        batches_short_dropped size drop_last pos (x ∷ xs) (omega arith) short e,
      )
      | inr e ↦ ground (
        arith,
        next-cons x xs,
        fill_short size drop_last pos x xs short,
        collect-over fuel [] (omega arith),
        batches-nil {A = ℕ} size drop_last pos,
        batches_short_kept size drop_last pos (x ∷ xs) (omega arith) short e,
      )
    ]
    | no full ↦ rw (
      next-cons x xs,
      fill_full size drop_last pos x xs (omega arith),
      collect-over fuel (drop size (x ∷ xs)) (omega (arith, length-drop size (x ∷ xs))),
      batches-step size drop_last pos (x ∷ xs) (omega arith),
    )
  ]

-- What `new` accepts: a positive batch size, whose storage the allocator grants.
pub new-eq-ok :
    {S : Type 0} (alloc : Allocator) (sampler : S) (size : ℕ) (drop_last : Bool)
    {b : BatchSampler S}
    → new alloc sampler size drop_last ≡ ok b
    → (0 < size)
      × (alloc usize_size size ≡ none)
      × (b ≡ record { sampler = sampler; batch_size = size; drop_last = drop_last })
unfolding new validate_batch_size try_vec
new-eq-ok alloc sampler size drop_last h = ground arith

pub new_granted :
    {S : Type 0} (alloc : Allocator) (sampler : S) (size : ℕ) (drop_last : Bool)
    → 0 < size
    → alloc usize_size size ≡ none
    → new alloc sampler size drop_last
      ≡ ok (record { sampler = sampler; batch_size = size; drop_last = drop_last })
unfolding new validate_batch_size try_vec
new_granted alloc sampler size drop_last pos g = ground arith

-- For every batch sampler over a sequence of indices that `new` accepts, iteration ends without a
-- panic and yields exactly `batch_count` batches: the `k`-th is the slice of `size` indices from `k
-- * size` on. Joined they give the whole sequence, or with `drop_last` its longest prefix of whole
-- batches; each batch has an index and at most `size`, and with `drop_last` exactly `size`.
pub collect_partitions :
    (alloc : Allocator) (xs : List ℕ) (size : ℕ) (drop_last : Bool) {b : BatchSampler (List ℕ)}
    → new alloc xs size drop_last ≡ ok b
    → (collect alloc (suc (length xs)) b ≡ ok (batches size drop_last xs))
      × (exact_len b ≡ some (length (batches size drop_last xs)))
      × (flatten (batches size drop_last xs)
          ≡ (if drop_last then take (length xs / size * size) xs else xs))
      × All (IsBatch size drop_last) (batches size drop_last xs)
unfolding exact_len over
collect_partitions alloc xs size drop_last h =
    let (pos, granted, e) = new-eq-ok alloc xs size drop_last h in
    (
      rw e (collect-over alloc size drop_last pos granted (suc (length xs)) xs (omega arith)),
      rw e (ap some (sym (length-map (range _) (batch_at size xs) ∙ length-range_from 0 _))),
      flatten-batches size drop_last pos xs,
      batches-IsBatch size drop_last pos xs,
    )
