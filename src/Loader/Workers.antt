-- ===== src/Loader/Workers.antt =====
-- The messages between a `WorkerLoaderIter` and its pool, and a worker's part in them:
-- crates/rusttorch-data/src/worker.rs.
pub mod Submit
pub mod Iter
pub mod Task
pub mod Entries
pub mod Sound
pub mod Visible
pub mod Step
pub mod Delivery
pub mod Fill
pub mod Live
pub mod Loop
pub mod Progress
pub mod Completion
use rust_torch.Base.{
  ℕ, zero, suc, Option, none, some, List, [], ◌∷◌, ◌++◌, length, ◌==◌, if◌then◌else◌, leb,
}
use rust_torch.Outcome.{Outcome, ok, err, panic}
use rust_torch.Loader.{Pipeline}
use rust_torch.Loader.Tasks.{WorkerTask}

pub data WorkerSubmit : Type 0 where
  submitted : WorkerSubmit
  full : WorkerTask → WorkerSubmit
  closed : WorkerSubmit

-- Without the permit of a memory budget.
pub record WorkerBatch (T : Type 0) : Type 0 where
  pub generation : ℕ
  pub batch_sequence : ℕ
  pub samples : List T

-- With one type for the errors of all stages.
pub data WorkerFailure (E : Type 0) : Type 0 where
  dataset transform transform_init worker_init : E → WorkerFailure E
  invalid_batch_cardinality : (expected actual : ℕ) → WorkerFailure E
  memory_limit : (limit actual : ℕ) → WorkerFailure E
  panics : WorkerFailure E

pub data WorkerMessage (T : Type 0) : Type 0 where
  batch : WorkerBatch T → WorkerMessage T
  quiesced : WorkerMessage T

pub record WorkerCompletion (T E : Type 0) : Type 0 where
  pub worker : ℕ
  pub generation : ℕ
  pub batch_sequence : Option ℕ
  pub result : Outcome (WorkerFailure E) (WorkerMessage T)

pub data WorkerReceive (T E : Type 0) : Type 0 where
  completion : WorkerCompletion T E → WorkerReceive T E
  timeout : WorkerReceive T E
  cancelled : WorkerReceive T E
  channel_closed : WorkerReceive T E

module _ {S T B E : Type 0} (p : Pipeline S T B E) where
  -- The loop of `run_generation` over the samples of a task. A panic of the user's code is caught by
  -- the thread and reported.
  unfoldable pub transform_samples : List S → List ℕ → List T → Outcome (WorkerFailure E) (List T)
  transform_samples [] logical transformed = ok transformed
  transform_samples (s ∷ ss) [] transformed = ok transformed
  transform_samples (s ∷ ss) (l ∷ ls) transformed =
      let rest = λ (t : T). transform_samples ss ls (transformed ++ t ∷ []) in
      elim (p.transform l s) [
        | ok t ↦ rest t
        | err e ↦ err (WorkerFailure.transform e)
        | panic m ↦ err WorkerFailure.panics
      ]

  unfoldable pub after_get : WorkerTask → Outcome E (List S) → Outcome (WorkerFailure E) (List T)
  unfolding transform_samples
  after_get task (ok ss) =
      if length ss == length task.indices
      then transform_samples ss task.logical_samples []
      else err (WorkerFailure.invalid_batch_cardinality (length task.indices) (length ss))
  after_get task (err e) = err (WorkerFailure.dataset e)
  after_get task (panic m) = err WorkerFailure.panics

  -- What a worker that is not interrupted sends for a task.
  unfoldable pub run_task : WorkerTask → Outcome (WorkerFailure E) (WorkerMessage T)
  run_task task = elim (after_get task (p.get_batch task.indices)) [
    | ok samples ↦ ok (
        WorkerMessage.batch (record {
          generation = task.generation;
          batch_sequence = task.batch_sequence;
          samples = samples;
        }))
    | err failure ↦ err failure
    | panic m ↦ panic m
  ]

-- What happens on the channel of results while the iterator waits: a worker finishes one of the
-- tasks in flight, reports another failure, a message of another generation or the end of this one
-- comes in, the time is up, the pass is cancelled, or the workers are gone.
pub data Event (T E : Type 0) : Type 0 where
  arrives : ℕ → Event T E
  reports : (worker : ℕ) → Option ℕ → WorkerFailure E → Event T E
  strays : WorkerCompletion T E → Event T E
  times_out : Event T E
  is_cancelled : Event T E
  closes : Event T E

-- The tasks that are in flight, each with its worker.
abbrev pub Flight : Type 0
Flight = List (ℕ × WorkerTask)

-- One of them, the last where there are fewer, and the others.
unfoldable pub pick : ℕ → ℕ × WorkerTask → Flight → (ℕ × WorkerTask) × Flight
pick n x [] = (x, [])
pick zero x (y ∷ ys) = (x, y ∷ ys)
pick (suc n) x (y ∷ ys) = let (found, others) = pick n y ys in (found, x ∷ others)

module _ {S T B E : Type 0} (p : Pipeline S T B E) (generation : ℕ) where
  -- The completion of a task.
  unfoldable pub completes : ℕ × WorkerTask → WorkerCompletion T E
  unfolding run_task
  completes (worker, task) = record {
    worker = worker;
    generation = task.generation;
    batch_sequence = some task.batch_sequence;
    result = run_task p task;
  }

  -- A stray message is one of another generation, or no batch.
  unfoldable pub stray : WorkerCompletion T E → WorkerCompletion T E
  stray c =
      if c.generation == generation
      then record c { batch_sequence = none; result = ok WorkerMessage.quiesced }
      else c

  -- `receive` of the pool; `none` where the event brings no message.
  unfoldable pub receive : Event T E → Flight → Option (WorkerReceive T E) × Flight
  unfolding pick completes stray
  receive (arrives n) [] = (none, [])
  receive (arrives n) (x ∷ xs) =
      let (found, others) = pick n x xs in
      (some (WorkerReceive.completion (completes found)), others)
  receive (reports worker b failure) flight = (
    some (
        WorkerReceive.completion (record {
          worker = worker;
          generation = generation;
          batch_sequence = b;
          result = err failure;
        })),
    flight,
  )
  receive (strays c) flight = (some (WorkerReceive.completion (stray c)), flight)
  receive times_out flight = (some WorkerReceive.timeout, flight)
  receive is_cancelled flight = (some WorkerReceive.cancelled, flight)
  receive closes flight = (some WorkerReceive.channel_closed, flight)
