-- ===== src/Sampler/Distributed/Epochs.antt =====
-- A constructed `DistributedSampler` over its epochs.
use rust_torch.Base.{
  ℕ, ◌+◌, ◌*◌, ◌%◌, ◌≤◌, ◌<◌, max, ◌≡◌, Bool, none, List, arith, length, get_elem?, drop,
  checked_mul-eq-some, usize_max,
}
use rust_torch.Outcome.{ok}
use rust_torch.Storage.{Allocator, usize_size, try_vec, try_vec_granted}
use rust_torch.Rng.{Rng, IsLawful}
use rust_torch.Sampler.Validate.{validate_positive, epoch_seed}
use rust_torch.Sampler.Distributed.{
  DistributedSampler, step_from, distributed_sample_count, distributed_indices, new, set_epoch,
  sampler, indices_for_epoch,
}
use rust_torch.Sampler.Distributed.Elements.{
  order, CountBounds, sample-CountBounds, materialized, extends, share,
}

-- The `k`-th index of a rank is the order's, at the rank's `k`-th slot taken round the dataset.
pub record IsShare (base : List ℕ) (len replicas rank n : ℕ) (xs : List ℕ) : Type 0 where
  pub size : length xs ≡ n
  pub at : (k : ℕ) → k < n → get_elem? xs k ≡ get_elem? base ((rank + k * replicas) % len)

module _ (rng : Rng) (alloc : Allocator) (len replicas rank : ℕ) (shuffle : Bool) (drop_last : Bool)
    (n : ℕ) where
  -- The storage that `distributed_indices` asks for, and its product within `usize`.
  pub record Fits : Type 0 where
    pub product : n * replicas ≤ usize_max
    pub global :
        alloc usize_size (max (n * replicas) (materialized len shuffle drop_last (n * replicas)))
        ≡ none
    pub local : alloc usize_size n ≡ none

  pub distributed_indices-Fits :
      (seed : ℕ) {xs : List ℕ}
      → distributed_indices alloc rng len replicas rank shuffle seed drop_last n ≡ ok xs
      → Fits
  unfolding distributed_indices try_vec
  distributed_indices-Fits seed h = ground arith

  pub distributed_indices-IsShare :
      IsLawful rng
      → (seed : ℕ) → rank < replicas
      → CountBounds len replicas drop_last n
      → Fits
      → (xs : List ℕ) × (distributed_indices alloc rng len replicas rank shuffle seed drop_last n
          ≡ ok xs)
        × IsShare (order rng len shuffle seed) len replicas rank n xs
  unfolding distributed_indices
  distributed_indices-IsShare law seed h b f =
      let (g, run, c) =
        extends rng law alloc len replicas seed n (omega arith) shuffle drop_last b in
      let (size, at) =
        share rng law alloc len replicas seed n (omega arith) (order rng len shuffle seed) g rank h
          c in
      (
        step_from replicas 0 (drop rank g),
        rw (
          checked_mul-eq-some n replicas f.product,
          try_vec_granted {A = ℕ} alloc usize_size
              (max (n * replicas) (materialized len shuffle drop_last (n * replicas))) "length"
              f.global,
          run,
          try_vec_granted {A = ℕ} alloc usize_size n "length" f.local,
        ),
        record { size = size; at = at },
      )

module _ (rng : Rng) (alloc : Allocator) (len replicas rank : ℕ) (shuffle : Bool) (seed : ℕ)
    (drop_last : Bool) where
  -- What `new` accepts, and the state that it builds.
  pub new-eq-ok :
      {s : DistributedSampler}
      → new alloc rng len replicas rank shuffle seed drop_last ≡ ok s
      → (rank < replicas)
        × (distributed_sample_count len replicas drop_last ≡ ok s.num_samples)
        × (distributed_indices alloc rng len replicas rank shuffle seed drop_last s.num_samples
            ≡ ok s.indices)
        × (s ≡ record {
          length = len;
          replicas = replicas;
          rank = rank;
          shuffle = shuffle;
          seed = seed;
          drop_last = drop_last;
          epoch = 0;
          num_samples = s.num_samples;
          indices = s.indices;
        })
  unfolding new validate_positive
  new-eq-ok h = ground arith

  -- With a lawful generator, a sampler that was built changes to any epoch without a panic, and its
  -- direct iteration and its fresh iterator then yield the same `num_samples` indices: the `k`-th
  -- is the one that the epoch's order, common to all ranks, holds at `(rank + k * replicas) %
  -- length`. With `drop_last` the ranks share the whole rounds of the dataset, and otherwise the
  -- fewest rounds that hold it.
  pub set_epoch-IsShare :
      IsLawful rng
      → (epoch : ℕ) {s : DistributedSampler}
      → new alloc rng len replicas rank shuffle seed drop_last ≡ ok s
      → (xs : List ℕ) × (set_epoch alloc rng s epoch
          ≡ ok (record s { epoch = epoch; indices = xs }))
        × ((sampler alloc rng).iter (record s { epoch = epoch; indices = xs }) ≡ ok xs)
        × IsShare (order rng len shuffle (epoch_seed seed epoch)) len replicas rank s.num_samples xs
        × CountBounds len replicas drop_last s.num_samples
  unfolding set_epoch sampler indices_for_epoch
  set_epoch-IsShare law epoch {s} h =
      let (inside, counted, run, e) = new-eq-ok h in
      let b = sample-CountBounds len replicas drop_last (omega arith) counted in
      let n = s.num_samples in
      let f = distributed_indices-Fits rng alloc len replicas rank shuffle drop_last n seed run in
      let (xs, run', d) =
        distributed_indices-IsShare rng alloc len replicas rank shuffle drop_last n law
          (epoch_seed seed epoch) inside b f in
      (xs, rw (e, run'), rw (e, run'), d, b)
