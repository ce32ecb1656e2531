-- ===== src/Sampler/Distributed/Cover.antt =====
-- The shards of all ranks together: coverage and disjointness.
use mathlib.Core.List.Perm
use native.Mathlib.Nat.{mod-eq_of_lt, mod-lt, mod-add-div', add-mul-div_right, div-eq_of_lt}
use rust_torch.Base.{
  ℕ, ◌+◌, ◌*◌, ◌/◌, ◌%◌, ◌≤◌, ◌<◌, ◌≡◌, sym, ap, ◌∙◌, Bool, true, false, some, arith, length,
  get_elem?, count, count-perm, count-range_from, get_elem?_of_count-pos, get_elem?-injective,
  lt_of_get_elem?, length-perm, length-range_from, AllBelow-perm, AllBelow-range_from,
  All-get_elem?, subst,
}
use rust_torch.Outcome.{ok}
use rust_torch.Storage.{Allocator}
use rust_torch.Rng.{Rng, IsLawful}
use rust_torch.Sampler.Distributed.{DistributedSampler, new}
use rust_torch.Sampler.Distributed.Elements.{
  order, order-perm, CountBounds, sample-CountBounds, slot-lt,
}
use rust_torch.Sampler.Distributed.Epochs.{
  IsShare, distributed_indices-Fits, distributed_indices-IsShare, new-eq-ok,
}

round-lt : (k n replicas p : ℕ) → k * replicas ≤ p → p < n * replicas → k < n
round-lt k n replicas p h m = grind arith

slot_unique :
    (r r' k k' replicas : ℕ)
    → r < replicas
    → r' < replicas
    → r + k * replicas ≡ r' + k' * replicas
    → (r ≡ r') × (k ≡ k')
slot_unique r r' k k' replicas h h' e =
    let same : k ≡ k' = omega (
      arith,
      add-mul-div_right r k {z = replicas} (omega arith),
      add-mul-div_right r' k' {z = replicas} (omega arith),
      div-eq_of_lt h,
      div-eq_of_lt h',
      ap (λ (p : ℕ). p / replicas) e,
    ) in
    (omega (arith, ap (λ (t : ℕ). t * replicas) same), same)

module _ (rng : Rng) (law : IsLawful rng) (alloc : Allocator) (len replicas rank : ℕ)
    (shuffle : Bool) (seed : ℕ) (drop_last : Bool) {s : DistributedSampler}
    (built : new alloc rng len replicas rank shuffle seed drop_last ≡ ok s) where
  new-IsShare : IsShare (order rng len shuffle seed) len replicas rank s.num_samples s.indices
  new-IsShare =
      let (inside, counted, run, _) =
        new-eq-ok rng alloc len replicas rank shuffle seed drop_last built in
      let b = sample-CountBounds len replicas drop_last (omega arith) counted in
      let f =
        distributed_indices-Fits rng alloc len replicas rank shuffle drop_last s.num_samples seed
          run in
      let (xs, run', d) =
        distributed_indices-IsShare rng alloc len replicas rank shuffle drop_last s.num_samples law
          seed inside b f in
      let same : xs ≡ s.indices = cc in
      subst (IsShare (order rng len shuffle seed) len replicas rank s.num_samples) same d

  new-CountBounds : (rank < replicas) × CountBounds len replicas drop_last s.num_samples
  new-CountBounds =
      let (inside, counted, _, _) =
        new-eq-ok rng alloc len replicas rank shuffle seed drop_last built in
      (inside, sample-CountBounds len replicas drop_last (omega arith) counted)

  -- Where an index of this rank stands in the common order.
  placed :
      (k i : ℕ)
      → get_elem? s.indices k ≡ some i
      → (k < s.num_samples)
        × (get_elem? (order rng len shuffle seed) ((rank + k * replicas) % len) ≡ some i)
  placed k i h =
      let m : k < s.num_samples = omega (arith, lt_of_get_elem? s.indices k h, new-IsShare.size) in
      (m, sym (new-IsShare.at k m) ∙ h)

module _ (rng : Rng) (law : IsLawful rng) (alloc : Allocator) (len replicas : ℕ) (shuffle : Bool)
    (seed : ℕ) where
  count-order : (i : ℕ) → i < len → count i (order rng len shuffle seed) ≡ 1
  count-order i h =
      count-perm i (order-perm rng law len shuffle seed)
      ∙ count-range_from i 0 len (omega arith) (omega arith)

  length-order : length (order rng len shuffle seed) ≡ len
  length-order = length-perm (order-perm rng law len shuffle seed) ∙ length-range_from 0 len

  order-below : (p : ℕ) {i : ℕ} → get_elem? (order rng len shuffle seed) p ≡ some i → i < len
  order-below p at =
      All-get_elem? _ (order rng len shuffle seed) p
        (AllBelow-perm len (Perm.symm (order-perm rng law len shuffle seed))
          (AllBelow-range_from 0 len len (omega arith)))
        at

  -- With a lawful generator and without `drop_last`, where every one of at least one rank has built
  -- its sampler, each index of the dataset is assigned to some rank.
  pub assigned :
      (shards : ℕ → DistributedSampler)
      → 0 < replicas
      → ((rank : ℕ)
          → rank < replicas
          → new alloc rng len replicas rank shuffle seed false ≡ ok (shards rank))
      → (i : ℕ) → i < len
      → (rank : ℕ) × (rank < replicas) × (k : ℕ) × (get_elem? (shards rank).indices k ≡ some i)
  assigned shards pos built i h =
      let (p, at) =
        get_elem?_of_count-pos i (order rng len shuffle seed) (omega (arith, count-order i h)) in
      let rank = p % replicas in
      let k = p / replicas in
      let inside : rank < replicas = mod-lt p pos in
      let slot : rank + k * replicas ≡ p = mod-add-div' p replicas in
      let below : p < len =
        omega (arith, lt_of_get_elem? (order rng len shuffle seed) p at, length-order) in
      let share =
        new-IsShare rng law alloc len replicas rank shuffle seed false (built rank inside) in
      let bounds =
        new-CountBounds rng law alloc len replicas rank shuffle seed false (built rank inside) in
      let early : k < (shards rank).num_samples =
        round-lt k _ replicas p (omega arith) (omega arith) in
      (
        rank,
        inside,
        k,
        share.at k early
            ∙ ap (λ q. get_elem? (order rng len shuffle seed) (q % len)) slot
            ∙ ap (get_elem? (order rng len shuffle seed)) (mod-eq_of_lt below)
            ∙ at,
      )

  -- With a lawful generator and with `drop_last`, no index is assigned by two samplers that were
  -- built to two ranks, nor twice to one.
  pub assigned_once :
      (r r' : ℕ) {s s' : DistributedSampler}
      → new alloc rng len replicas r shuffle seed true ≡ ok s
      → new alloc rng len replicas r' shuffle seed true ≡ ok s'
      → (k k' i : ℕ) → get_elem? s.indices k ≡ some i
      → get_elem? s'.indices k' ≡ some i
      → (r ≡ r') × (k ≡ k')
  assigned_once r r' {s} {s'} built built' k k' i h h' =
      let (m, at) = placed rng law alloc len replicas r shuffle seed true built k i h in
      let (m', at') = placed rng law alloc len replicas r' shuffle seed true built' k' i h' in
      let (inside, b) = new-CountBounds rng law alloc len replicas r shuffle seed true built in
      let (inside', b') = new-CountBounds rng law alloc len replicas r' shuffle seed true built' in
      let low : r + k * replicas < len =
        omega (arith, slot-lt r k s.num_samples replicas inside m) in
      let low' : r' + k' * replicas < len =
        omega (arith, slot-lt r' k' s'.num_samples replicas inside' m') in
      let known : i < len = order-below _ at in
      let same =
        get_elem?-injective i (order rng len shuffle seed) _ _ (omega (arith, count-order i known))
          at at' in
      slot_unique r r' k k' replicas inside inside'
        (sym (mod-eq_of_lt low) ∙ same ∙ mod-eq_of_lt low')
