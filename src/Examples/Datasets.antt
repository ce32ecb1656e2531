-- ===== src/Examples/Datasets.antt =====
-- Runs of the limits and of the datasets.
use rust_torch.Base.{
  ℕ, ◌*◌, i64_max, usize_max, ◌+◌, ◌≤◌, ◌<◌, ◌≡◌, ◌↔◌, ◌⊎◌, refl, String, none, some, List, [], ◌∷◌,
  map, length, arith,
}
use rust_torch.Outcome.{Outcome, ok, err, panic, ◌>>=◌, index}
use rust_torch.Limits.{
  ResourceLimits, default_limits, tensor_elements, Reader, ReadError, read_encoded,
}
use rust_torch.Limits.Products.{IsAllowed, product, tensor_elements-IsAllowed}
use rust_torch.Limits.Reads.{read_encoded-cases}
use rust_torch.Dataset.{Dataset}
use rust_torch.Dataset.Concat
use rust_torch.Dataset.Concat.{ConcatDataset}
use rust_torch.Dataset.Concat.Lookup.{all_lookups, get-lookups}
use rust_torch.Dataset.Subset.{Subset}
use rust_torch.Dataset.Split.{SplitLength, count, fraction, random_split}
use rust_torch.Dataset.Split.Counts.{Ends}
use rust_torch.Dataset.Split.Partition.{IsSplit, random_split-IsSplit, random_split-count}
use rust_torch.Base.{sum, ◌++◌, true, false}
use rust_torch.Sampler.Batch.Slices.{batches}
use rust_torch.Dataset.Batches
use rust_torch.Dataset.Batches.{BatchIterator, drain}
use rust_torch.Dataset.Batches.Stream.{samples_then, drain-batches}
use rust_torch.Examples.Instances.{reversing, reversing-IsLawful, quarters}

tensor_elements-IsAllowed_example :
    (tensor_elements default_limits (3 ∷ 4 ∷ []) ≡ ok 12)
    ↔ (IsAllowed default_limits (3 ∷ 4 ∷ []) × (12 ≡ product (3 ∷ 4 ∷ [])))
tensor_elements-IsAllowed_example = tensor_elements-IsAllowed default_limits (3 ∷ 4 ∷ []) 12

abbrev two_bytes : ResourceLimits
two_bytes = record default_limits { max_encoded_bytes = 2 }

abbrev three_bytes : Reader String
three_bytes = record { bytes = 1 ∷ 2 ∷ 3 ∷ []; failure = some "device error" }

read_encoded-cases_example :
    ((2 < length three_bytes.bytes)
      × (read_encoded two_bytes three_bytes
          ≡ err (ReadError.invalid_data "encoded resource limit exceeded")))
    ⊎ ((length three_bytes.bytes ≤ 2)
        × (three_bytes.failure ≡ none)
        × (read_encoded two_bytes three_bytes ≡ ok three_bytes.bytes))
    ⊎ ((length three_bytes.bytes ≤ 2)
        × ((e : String) × (three_bytes.failure ≡ some e)
            × (read_encoded two_bytes three_bytes ≡ err (ReadError.inner e))))
read_encoded-cases_example = read_encoded-cases two_bytes three_bytes (omega arith)

-- Samples `base`, `base + 1`, ...
abbrev counting : ℕ → ℕ → Dataset ℕ String
counting base len = record { len = len; get = λ i. ok (base + i) }

abbrev joined : ConcatDataset ℕ String
joined = record {
  datasets = counting 10 2 ∷ counting 20 0 ∷ counting 30 3 ∷ [];
  cumulative_sizes = 2 ∷ 2 ∷ 5 ∷ [];
}

joined-new : Concat.new (counting 10 2 ∷ counting 20 0 ∷ counting 30 3 ∷ []) ≡ ok joined
unfolding Concat.new Concat.cumulate
joined-new = refl

get-lookups_example :
    (Concat.get joined 3 ≡ (index (all_lookups joined.datasets) 3 >>= λ r. r))
    × (Concat.len joined ≡ length (all_lookups joined.datasets))
get-lookups_example = get-lookups (counting 10 2 ∷ counting 20 0 ∷ counting 30 3 ∷ []) 3 joined-new

abbrev quarter_and_rest : List (SplitLength quarters)
quarter_and_rest = fraction 1 ∷ fraction 3 ∷ []

random_split-IsSplit_example :
    Ends
      (IsSplit quarters (counting 0 5) quarter_and_rest)
      (random_split quarters (λ x. "?") reversing (counting 0 5) quarter_and_rest 1)
random_split-IsSplit_example =
    random_split-IsSplit quarters (λ x. "?") reversing reversing-IsLawful (counting 0 5)
      quarter_and_rest 1 (omega arith)

random_split-count_example :
    ((5 * 8 ≤ i64_max)
      × ((ss : List (Subset ℕ String)) × (random_split quarters
              (λ x. "?")
              reversing
              (counting 0 5)
              (map count (2 ∷ 3 ∷ []))
              1
            ≡ ok ss)
          × (map (λ s. length s.indices) ss ≡ (2 ∷ 3 ∷ []))))
    ⊎ ((i64_max < 5 * 8)
        × (random_split quarters (λ x. "?") reversing (counting 0 5) (map count (2 ∷ 3 ∷ [])) 1
            ≡ panic "capacity overflow"))
random_split-count_example =
    random_split-count quarters (λ x. "?") reversing reversing-IsLawful (counting 0 5) (2 ∷ 3 ∷ [])
      1 (omega arith) refl

abbrev three : List ℕ
three = 5 ∷ 6 ∷ 7 ∷ []

abbrev summing : List (Outcome String ℕ) → BatchIterator ℕ ℕ String
summing source = record {
  source = source;
  batch_size = 2;
  drop_last = false;
  collate = λ samples. ok (sum samples);
  exhausted = false;
}

summing-new :
    (source : List (Outcome String ℕ))
    → Batches.new source 2 false (λ samples. ok (sum samples)) ≡ ok (summing source)
unfolding Batches.new
summing-new source = refl

drain-batches_example :
    (drain 8 4 (summing (samples_then three []))
      ≡ map (λ part. ok (sum part)) (batches 2 false three))
    × (drain 8 5 (summing (samples_then three (err "lost" ∷ ok 9 ∷ [])))
        ≡ map (λ part. ok (sum part)) (batches 2 true three) ++ err "lost" ∷ [])
drain-batches_example =
    drain-batches sum 2 false three "lost" (ok 9 ∷ []) 8 (omega arith)
      (summing-new (samples_then three []))
      (summing-new (samples_then three (err "lost" ∷ ok 9 ∷ [])))

-- One batch of two, and the failure.
run : drain 8 5 (summing (samples_then three (err "lost" ∷ ok 9 ∷ []))) ≡ (ok 11 ∷ err "lost" ∷ [])
unfolding drain Batches.next Batches.first_sample Batches.after_gather Batches.finish Batches.gather
    Batches.is_err
run = refl

-- A batch of so many samples does not fit a vector.
too_large :
    Batches.next {B = ℕ} 8 (record (summing (ok 5 ∷ [])) { batch_size = usize_max })
    ≡ (some (panic "capacity overflow"), record (summing []) { batch_size = usize_max })
unfolding Batches.next Batches.first_sample
too_large = refl
