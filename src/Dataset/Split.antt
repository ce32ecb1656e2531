-- ===== src/Dataset/Split.antt =====
-- `random_split` of crates/rusttorch-data/src/dataset.rs.
pub mod Counts
pub mod Partition
use rust_torch.Base.{
  ℕ, zero, suc, ◌+◌, ◌-◌, ◌%◌, String, Bool, true, false, not, ◌&&◌, ◌||◌, Option, none, some, List,
  [], ◌∷◌, map, ltb, ◌==◌, if◌then◌else◌, length, take, drop, range, checked_add, checked_sub,
  usize_max,
}
use rust_torch.Error.{RustTorchError, Arg, Message, plain}
use rust_torch.Outcome.{Outcome, ok, err, panic, ◌>>=◌, ◌>>◌, fail_if, ok_or, traverse}
use rust_torch.Storage.{with_capacity, usize_size}
use rust_torch.Rng.{Rng}
use rust_torch.Float.{F64}
use rust_torch.Dataset.{Dataset}
use rust_torch.Dataset.Subset.{Subset, new}

unfoldable pub invalid_split : Message → RustTorchError
invalid_split reason = RustTorchError.invalid_configuration "lengths" reason

-- `counts.iter().try_fold(0usize, |total, &count| total.checked_add(count))`.
unfoldable pub fold_checked_add : ℕ → List ℕ → Option ℕ
fold_checked_add total [] = some total
fold_checked_add total (n ∷ ns) = elim (checked_add total n) [
  | none ↦ none
  | some total' ↦ fold_checked_add total' ns
]

-- `counts[i] += 1`.
unfoldable pub increment : List ℕ → ℕ → Outcome RustTorchError (List ℕ)
increment [] i = panic "index out of bounds"
increment (n ∷ ns) zero =
    if n == usize_max then panic "attempt to add with overflow" else ok (suc n ∷ ns)
increment (n ∷ ns) (suc i) = do ns' ← increment ns i; ok (n ∷ ns')

-- `for index in index..index + remainder`, the leftover samples one by one.
unfoldable pub distribute : ℕ → ℕ → ℕ → List ℕ → Outcome RustTorchError (List ℕ)
distribute split_count index zero counts = ok counts
distribute split_count index (suc remainder) counts =
    if split_count == 0
    then panic "attempt to calculate the remainder with a divisor of zero"
    else do
      counts' ← increment counts (index % split_count)
      distribute split_count (suc index) remainder counts'

-- `indices[start..end].to_vec()`.
unfoldable pub slice : List ℕ → ℕ → ℕ → Outcome RustTorchError (List ℕ)
slice indices start end =
    if ltb end start || ltb (length indices) end
    then panic "range out of bounds for slice"
    else ok (take (end - start) (drop start indices))

module _ (f : F64) where
  pub data SplitLength : Type 0 where
    count : ℕ → SplitLength
    fraction : f.Float → SplitLength

  unfoldable pub any_fraction : List SplitLength → Bool
  any_fraction [] = false
  any_fraction (count n ∷ lengths) = any_fraction lengths
  any_fraction (fraction x ∷ lengths) = true

  unfoldable pub count_of : SplitLength → Outcome RustTorchError ℕ
  count_of (count n) = ok n
  count_of (fraction x) = panic "internal error: entered unreachable code"

  unfoldable pub fraction_of : SplitLength → Outcome RustTorchError f.Float
  fraction_of (fraction x) =
      if f.is_finite x && (f.le f.zero x && f.le x f.one)
      then ok x
      else err (invalid_split (plain "fractions must be finite and between zero and one"))
  fraction_of (count n) = err (invalid_split (plain "count and fraction lengths cannot be mixed"))

  -- The branch for exact counts.
  unfoldable pub exact_counts : List SplitLength → ℕ → Outcome RustTorchError (List ℕ)
  exact_counts lengths len = do
    fail_if (any_fraction lengths)
        (invalid_split (plain "count and fraction lengths cannot be mixed"))
    counts ← traverse count_of lengths
    total ← ok_or (fold_checked_add 0 counts) (invalid_split (plain "count total overflows usize"))
    fail_if (not (total == len)) (
        invalid_split (record {
          template = "counts sum to {total}, expected {}";
          arguments = Arg.number total ∷ Arg.number len ∷ [];
        }))
    ok counts

  -- The branch for fractions. The text of a float in a message is the library's.
  unfoldable pub fractional_counts :
      (f.Float → String) → List SplitLength → ℕ → Outcome RustTorchError (List ℕ)
  fractional_counts display lengths len = do
    fractions ← traverse fraction_of lengths
    let total = f.sum fractions
    fail_if (f.lt f.one total || f.lt f.tolerance (f.abs (f.sub total f.one))) (
        invalid_split (record {
          template = "fractions sum to {total}, expected 1";
          arguments = Arg.text (display total) ∷ [];
        }))
    let counts = map (λ x. f.to_usize (f.floor (f.mul x (f.from_usize len)))) fractions
    assigned ←
        ok_or (fold_checked_add 0 counts)
          (invalid_split (plain "fractional count total overflows usize"))
    remainder ←
        ok_or (checked_sub len assigned)
          (invalid_split (plain "fractional floors exceed the source dataset length"))
    distribute (length counts) 0 remainder counts

  unfoldable pub split_counts :
      (f.Float → String) → List SplitLength → ℕ → Outcome RustTorchError (List ℕ)
  split_counts display [] len = exact_counts [] len
  split_counts display (count n ∷ lengths) len = exact_counts (count n ∷ lengths) len
  split_counts display (fraction x ∷ lengths) len =
      fractional_counts display (fraction x ∷ lengths) len

module _ {ℓ κ} {S : Type ℓ} {E : Type κ} where
  -- The closure that is mapped over the counts, from the offset so far.
  unfoldable pub subsets :
      Dataset S E → List ℕ → ℕ → List ℕ → Outcome RustTorchError (List (Subset S E))
  subsets d indices offset [] = ok []
  subsets d indices offset (n ∷ counts) =
      if ltb usize_max (offset + n) then panic "attempt to add with overflow" else do
        part ← slice indices offset (offset + n)
        subset ← new d part
        rest ← subsets d indices (offset + n) counts
        ok (subset ∷ rest)

  unfoldable pub random_split :
      (f : F64)
      → (f.Float → String)
      → (rng : Rng) → Dataset S E
      → List (SplitLength f)
      → ℕ
      → Outcome RustTorchError (List (Subset S E))
  random_split f display rng d lengths seed = do
    counts ← split_counts f display lengths d.len
    with_capacity usize_size d.len
    subsets d (rng.shuffle (range d.len) (rng.seed_from_u64 seed)).0 0 counts
