-- ===== src/Sampler/Random/Epochs.antt =====
-- A constructed `RandomSampler` over its epochs.
use rust_torch.Base.{ℕ, ◌<◌, ◌≡◌, none, List, arith, length, AllBelow}
use rust_torch.Outcome.{ok}
use rust_torch.Storage.{Allocator, usize_size, try_vec}
use rust_torch.Rng.{Rng, IsLawful}
use rust_torch.Sampler.Validate.{validate_positive, epoch_seed}
use rust_torch.Sampler.Random.{
  Replacement, with_replacement, without_replacement, RandomSampler, random_indices, build,
  indices_for_epoch, set_epoch, sampler,
}
use rust_torch.Sampler.Random.Balance.{IsBalanced, random_indices-IsBalanced, random_indices-below}

-- What a sampler of each kind may draw.
abbrev pub Drawn : Replacement → ℕ → ℕ → List ℕ → Type 0
Drawn with_replacement len num xs = (length xs ≡ num) × AllBelow len xs
Drawn without_replacement len num xs = IsBalanced len num xs

-- The storage that a sampler of each kind asks for.
abbrev pub Granted : Allocator → Replacement → ℕ → ℕ → Type 0
Granted alloc with_replacement len num = alloc usize_size num ≡ none
Granted alloc without_replacement len num =
    (alloc usize_size len ≡ none) × (alloc usize_size num ≡ none)

module _ (rng : Rng) (law : IsLawful rng) (alloc : Allocator) (len num : ℕ) where
  pub random_indices-Drawn :
      (r : Replacement) (seed : ℕ)
      → 0 < len
      → Granted alloc r len num
      → (xs : List ℕ) × (random_indices alloc rng len num r seed ≡ ok xs) × Drawn r len num xs
  random_indices-Drawn with_replacement seed pos g =
      let (xs, run, drawn, below) = random_indices-below rng law alloc len pos num seed g in
      (xs, run, (drawn, below))
  random_indices-Drawn without_replacement seed pos g =
      random_indices-IsBalanced rng law alloc len pos num seed g.0 g.1

  pub random_indices-Granted :
      (r : Replacement) (seed : ℕ) {xs : List ℕ}
      → random_indices alloc rng len num r seed ≡ ok xs
      → Granted alloc r len num
  unfolding random_indices try_vec
  random_indices-Granted with_replacement seed h = ground arith
  random_indices-Granted without_replacement seed h = ground arith

  pub build-eq-ok :
      (r : Replacement) (seed : ℕ) {s : RandomSampler}
      → build alloc rng len num r seed ≡ ok s
      → (0 < len)
        × (0 < num)
        × (random_indices alloc rng len num r seed ≡ ok s.indices)
        × (s ≡ record {
          length = len;
          num_samples = num;
          replacement = r;
          seed = seed;
          epoch = 0;
          indices = s.indices;
        })
  unfolding build validate_positive
  build-eq-ok r seed h = ground arith

  -- With a lawful generator, a sampler that was built changes to any epoch without a panic, and its
  -- direct iteration and its fresh iterator then yield the same list: `num_samples` indices below
  -- `length`, and without replacement each of them `num_samples / length` times, rounded down or
  -- up.
  pub set_epoch-Drawn :
      (r : Replacement) (seed epoch : ℕ) {s : RandomSampler}
      → build alloc rng len num r seed ≡ ok s
      → (xs : List ℕ) × (set_epoch alloc rng s epoch
          ≡ ok (record s { epoch = epoch; indices = xs }))
        × ((sampler alloc rng).iter (record s { epoch = epoch; indices = xs }) ≡ ok xs)
        × Drawn r len num xs
  unfolding set_epoch sampler indices_for_epoch
  set_epoch-Drawn r seed epoch {s} h =
      let (pos, _, run, e) = build-eq-ok r seed h in
      let (xs, run', d) =
        random_indices-Drawn r (epoch_seed seed epoch) pos (random_indices-Granted r seed run) in
      (xs, rw (e, run'), rw (e, run'), d)
