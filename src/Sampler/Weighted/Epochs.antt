-- ===== src/Sampler/Weighted/Epochs.antt =====
-- A constructed `WeightedRandomSampler` over its epochs.
use rust_torch.Base.{ℕ, ◌≤◌, ◌≡◌, false, List, arith, length}
use rust_torch.Outcome.{ok}
use rust_torch.Storage.{Allocator}
use rust_torch.Rng.{Rng, IsLawful}
use rust_torch.Float.{F64, HasSigns}
use rust_torch.Sampler.Validate.{validate_positive, epoch_seed}
use rust_torch.Sampler.Weighted.{
  WeightedRng, WeightedRandomSampler, validate_weights, weighted_indices, new, set_epoch, sampler,
  indices_for_epoch,
}
use rust_torch.Sampler.Weighted.Positions.{validate_weights-IsWeight, IsSelection}
use rust_torch.Sampler.Weighted.Selection.{weighted_indices-Fits, weighted_indices-IsSelection}

module _ (alloc : Allocator) (f : F64) (rng : Rng) (dist : WeightedRng f rng) (ws : List f.Float)
    (num seed : ℕ) where
  pub new-eq-ok :
      {s : WeightedRandomSampler f dist.WeightedIndex}
      → new alloc f rng dist ws num false seed ≡ ok s
      → (validate_weights f ws ≡ ok tt)
        × (num ≤ length ws)
        × (weighted_indices alloc f rng dist ws num false seed s.distribution ≡ ok s.indices)
        × (s ≡ record {
          weights = ws;
          num_samples = num;
          replacement = false;
          seed = seed;
          epoch = 0;
          distribution = s.distribution;
          indices = s.indices;
        })
  unfolding new validate_positive
  new-eq-ok h = ground arith

  -- With a lawful generator and floats with signs, a sampler that was built without replacement
  -- changes to any epoch without a panic, and its direct iteration and its fresh iterator then
  -- yield the same `num_samples` distinct indices of the weights; a zero weight is drawn only after
  -- all positive ones.
  pub set_epoch-IsSelection :
      IsLawful rng
      → HasSigns f
      → (epoch : ℕ) → {s : WeightedRandomSampler f dist.WeightedIndex}
      → new alloc f rng dist ws num false seed ≡ ok s
      → (xs : List ℕ) × (set_epoch alloc f rng dist s epoch
          ≡ ok (record s { epoch = epoch; indices = xs }))
        × ((sampler alloc f rng dist).iter (record s { epoch = epoch; indices = xs }) ≡ ok xs)
        × IsSelection f ws num xs
  unfolding set_epoch sampler indices_for_epoch
  set_epoch-IsSelection law signs epoch {s} h =
      let (valid, fits, run, e) = new-eq-ok h in
      let g = weighted_indices-Fits alloc f rng law dist ws num seed s.distribution run in
      let (xs, run', d) =
        weighted_indices-IsSelection alloc f rng law dist signs ws num (epoch_seed seed epoch)
          s.distribution (validate_weights-IsWeight f ws valid) fits g.entries g.output g.zeros in
      (xs, rw (e, run'), rw (e, run'), d)
