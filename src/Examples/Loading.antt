-- ===== src/Examples/Loading.antt =====
-- Runs of the loader's iterators over a dataset of four samples.
use mathlib.Core.Path.{◌≡◌, refl}
use rust_torch.Base.{ℕ, ◌+◌, true, none, some, List, [], ◌∷◌, map, arith}
use rust_torch.Outcome.{ok}
use rust_torch.Loader.{LoaderError, Pipeline}
use rust_torch.Loader.Tasks.{numbered, until_failure, item}
use rust_torch.Loader.Serial
use rust_torch.Loader.Serial.Pass.{drain_pass}
use rust_torch.Loader.Workers.{arrives, times_out}
use rust_torch.Loader.Workers.Submit.{Settings, accepts, rejects, fill, fill_available}
use rust_torch.Loader.Workers.Iter.{drain, fresh, start, finished}
use rust_torch.Loader.Workers.Sound.{up_to_panic}
use rust_torch.Loader.Workers.Delivery.{IsDelivery, ordered-IsDelivery}
use rust_torch.Loader.Workers.Fill.{fill_ends}
use rust_torch.Loader.Workers.Completion.{workers_match_serial}

-- Each sample is its index, a transform adds its logical sample, and a batch is the list of them.
abbrev pub counting : Pipeline ℕ ℕ (List ℕ) ℕ
counting = record {
  get_batch = λ indices. ok indices;
  transform = λ logical sample. ok (logical + sample);
  finish = λ samples. ok samples;
  pin = none;
}

abbrev two_workers : Settings
two_workers = record {
  generation = 7;
  workers = 2;
  capacity = 2;
  ordered = true;
  refill_panic_stage = "sampler refill";
  finish_panic_stage = "collation";
}

abbrev pub three_batches : List (List ℕ)
three_batches = (3 ∷ 1 ∷ []) ∷ (0 ∷ []) ∷ (2 ∷ []) ∷ []

drain_pass_example :
    Serial.drain counting 4 (Serial.start three_batches)
    ≡ until_failure (map (item counting) (numbered 7 0 0 three_batches))
drain_pass_example = drain_pass counting 4 7 three_batches (omega arith) (omega arith) (omega arith)

-- The second task is finished before the first.
workers_match_serial_example :
    drain counting two_workers 4
      (map arrives (1 ∷ 0 ∷ 0 ∷ []))
      (start counting two_workers [] (map some three_batches))
    ≡ (Serial.drain counting 4 (Serial.start three_batches), finished)
unfolding item rust_torch.Loader.Tasks.samples
workers_match_serial_example =
    workers_match_serial counting two_workers three_batches (1 ∷ 0 ∷ 0 ∷ []) 4 refl (omega arith)
      (omega arith) (omega arith) ((_, refl), ((_, refl), ((_, refl), tt))) (omega arith)
      (omega arith)

-- A submission is turned down at first, and the time is up after the second task.
ordered-IsDelivery_example :
    IsDelivery counting
      (numbered 7 0 0 (up_to_panic (map some three_batches)))
      (drain counting two_workers 4
        (arrives 0 ∷ arrives 0 ∷ times_out ∷ [])
        (start counting two_workers (rejects ∷ []) (map some three_batches))).0
unfolding up_to_panic
ordered-IsDelivery_example =
    ordered-IsDelivery counting two_workers (rejects ∷ []) (map some three_batches) 4
      (arrives 0 ∷ arrives 0 ∷ times_out ∷ []) refl (omega arith)

fill_ends_example :
    fill counting two_workers 5 (fresh counting two_workers (accepts ∷ []) (map some three_batches))
    ≡ fill_available counting two_workers
        (fresh counting two_workers (accepts ∷ []) (map some three_batches))
fill_ends_example =
    fill_ends counting two_workers 5
      (fresh counting two_workers (accepts ∷ []) (map some three_batches)) (omega arith)

-- What the consumer sees when the second task is finished first.
reordered :
    drain counting two_workers 4
      (map arrives (1 ∷ 0 ∷ 0 ∷ []))
      (start counting two_workers [] (map some three_batches))
    ≡ (ok (3 ∷ 2 ∷ []) ∷ ok (2 ∷ []) ∷ ok (5 ∷ []) ∷ [], finished)
unfolding drain start rust_torch.Loader.Workers.after_get
reordered = refl
