-- ===== src/Examples/Instances.antt =====
-- Concrete parameters: an allocator, a generator, floats and a weighted distribution.
use mathlib.Core.List.{reverse, reverse_perm}
use Prim.Native.Nat.{compare}
use rust_torch.Base.{ℕ, suc, ◌-◌, ◌*◌, ◌/◌, min, max, true, none, List, arith, ltb, leb, ◌==◌, sum}
use rust_torch.Outcome.{ok}
use rust_torch.Storage.{Allocator}
use rust_torch.Rng.{Rng, IsLawful}
use rust_torch.Float.{F64, HasSigns}
use rust_torch.Sampler.Weighted.{WeightedRng}

abbrev pub granting : Allocator
granting size capacity = none

abbrev pub reversing : Rng
reversing = record {
  State = ℕ;
  seed_from_u64 = λ seed. seed;
  shuffle = λ xs state. (reverse xs, suc state);
  gen_range = λ lo hi state. (max lo (min state (hi - 1)), suc state);
}

pub reversing-IsLawful : IsLawful reversing
reversing-IsLawful = record {
  shuffle-perm = λ xs state. reverse_perm xs;
  gen_range_bounds = λ lo hi state h. (omega arith, omega arith);
}

-- A float is a number of quarters.
abbrev pub quarters : F64
quarters = record {
  Float = ℕ;
  zero = 0;
  is_finite = λ x. true;
  lt = ltb;
  eq = ◌==◌;
  sum = sum;
  sub = ◌-◌;
  neg = λ x. x;
  ln = λ x. x;
  total_cmp = compare;
  to_bits = λ x. x;
  one = 4;
  tolerance = 0;
  le = leb;
  abs = λ x. x;
  mul = λ x y. x * y / 4;
  floor = λ x. x / 4 * 4;
  from_usize = λ n. n * 4;
  to_usize = λ x. x / 4;
}

pub quarters-HasSigns : HasSigns quarters
quarters-HasSigns = record { eq-zero = λ (x : ℕ) h k. ground arith }

abbrev pub by_turns : WeightedRng quarters reversing
by_turns = record {
  WeightedIndex = List ℕ;
  weighted_index = λ ws. ok ws;
  sample = λ ws state. (0, suc state);
  open01 = λ state. (state, suc state);
}
