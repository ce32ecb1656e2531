-- ===== src/Rng.antt =====
-- The random generator that the samplers draw from: `ChaCha12Rng` of the `rand_chacha` crate with
-- `SliceRandom::shuffle` and `Rng::gen_range` of the `rand` crate. It is an argument of the model.
use mathlib.Core.List.{Perm}
use rust_torch.Base.{ℕ, ◌<◌, ◌≤◌, List}

pub record Rng : Type 1 where
  pub State : Type 0
  pub seed_from_u64 : ℕ → State
  pub shuffle : List ℕ → State → List ℕ × State
  pub gen_range : ℕ → ℕ → State → ℕ × State

-- What the crate documents: `shuffle` permutes its slice, and `gen_range(lo..hi)` draws from it.
pub record IsLawful (rng : Rng) : Type 1 where
  pub shuffle-perm : (xs : List ℕ) (s : rng.State) → Perm (rng.shuffle xs s).0 xs
  pub gen_range_bounds :
      (lo hi : ℕ) (s : rng.State)
      → lo < hi
      → (lo ≤ (rng.gen_range lo hi s).0) × ((rng.gen_range lo hi s).0 < hi)
