-- ===== src/Loader/Workers/Submit.antt =====
-- The state of `WorkerLoaderIter` of crates/rusttorch-data/src/loader.rs, with `CheckpointDisabled` and a
-- positive number of workers, and how it submits tasks. What the pool answers is a script.
use rust_torch.Base.{
  ℕ, zero, suc, ◌-◌, ◌%◌, Bool, true, false, not, ◌&&◌, Option, none, some, List, [], ◌∷◌, ◌++◌,
  length, ◌==◌, ltb, if◌then◌else◌, checked_add, String, range_from,
}
use rust_torch.Error.{invalid_configuration, plain}
use rust_torch.Loader.{LoaderError, Pipeline}
use rust_torch.Loader.Tasks.{WorkerTask}
use rust_torch.Loader.Workers.{WorkerSubmit, WorkerBatch, Flight}

pub record PendingSubmission : Type 0 where
  pub worker : ℕ
  pub task : WorkerTask
  pub next_submission : ℕ
  pub logical_end : ℕ

-- What the pool will answer to a submission.
pub data Answer : Type 0 where
  accepts rejects disconnected : Answer

abbrev pub submit : Answer → WorkerTask → WorkerSubmit
submit accepts task = WorkerSubmit.submitted
submit rejects task = WorkerSubmit.full task
submit disconnected task = WorkerSubmit.closed

-- The fields that stay as they are in a pass.
pub record Settings : Type 0 where
  pub generation : ℕ
  pub workers : ℕ
  pub capacity : ℕ
  pub ordered : Bool
  pub refill_panic_stage : String
  pub finish_panic_stage : String

-- The fields that change. `batches` is what the plan's iterator will yield, `none` for a panic. The
-- pool is its tasks in flight and the answers it will give; once these are used up, it accepts.
pub record WorkerLoaderIter (T B E : Type 0) : Type 0 where
  pub batches : List (Option (List ℕ))
  pub in_flight : Flight
  pub answers : List Answer
  pub poisoned : Bool
  pub completed : List (ℕ × (ℕ × WorkerBatch T))
  pub pending_error : Option (LoaderError E)
  pub next_submission : ℕ
  pub next_visible : ℕ
  pub next_logical_sample : ℕ
  pub pending_submission : Option PendingSubmission
  pub outstanding : ℕ
  pub source_exhausted : Bool
  pub submission_closed : Bool
  pub exhausted : Bool

-- `BTreeMap::remove` and `insert`.
unfoldable pub remove {ℓ} : {V : Type ℓ} → ℕ → List (ℕ × V) → Option V × List (ℕ × V)
remove key [] = (none, [])
remove key ((k, v) ∷ rest) =
    let (found, others) = remove key rest in
    if k == key then (some v, others) else (found, (k, v) ∷ others)

unfoldable pub insert {ℓ} : {V : Type ℓ} → ℕ → V → List (ℕ × V) → List (ℕ × V)
unfolding remove
insert key v entries = (key, v) ∷ (remove key entries).1

module _ {S T B E : Type 0} (p : Pipeline S T B E) (c : Settings) where
  abbrev pub Iter : Type 0
  Iter = WorkerLoaderIter T B E

  abbrev take_answer : List Answer → Answer × List Answer
  take_answer [] = (accepts, [])
  take_answer (a ∷ rest) = (a, rest)

  unfoldable pub after_submit : WorkerSubmit → PendingSubmission → Iter → Bool × Iter
  after_submit WorkerSubmit.submitted pending s = (
    true,
    record s {
      in_flight = s.in_flight ++ (pending.worker, pending.task) ∷ [];
      next_submission = pending.next_submission;
      next_logical_sample = pending.logical_end;
      outstanding = suc s.outstanding;
    },
  )
  after_submit (WorkerSubmit.full task) pending s =
      (false, record s { pending_submission = some (record pending { task = task }) })
  after_submit WorkerSubmit.closed pending s = (false, record s { submission_closed = true })

  unfoldable pub try_submit : PendingSubmission → Iter → Bool × Iter
  unfolding after_submit
  try_submit pending s =
      let (answer, answers) = take_answer s.answers in
      after_submit (submit answer pending.task) pending (record s { answers = answers })

  abbrev refuses : LoaderError E → Iter → Bool × Iter
  refuses e s = (false, record s { pending_error = some e; submission_closed = true })

  abbrev submission : List ℕ → ℕ → ℕ → Iter → PendingSubmission
  submission indices next_submission logical_end s = record {
    worker = s.next_submission % c.workers;
    task = record {
      generation = c.generation;
      batch_sequence = s.next_submission;
      logical_samples = range_from s.next_logical_sample (logical_end - s.next_logical_sample);
      indices = indices;
    };
    next_submission = next_submission;
    logical_end = logical_end;
  }

  unfoldable pub submit_new : List ℕ → Iter → Bool × Iter
  unfolding try_submit
  submit_new indices s = elim (checked_add s.next_submission 1) [
    | none ↦
        refuses
          (LoaderError.configuration
            (invalid_configuration "sampler" (plain "batch sequence overflowed")))
          s
    | some next_submission ↦ elim (checked_add s.next_logical_sample (length indices)) [
      | none ↦
          refuses
            (LoaderError.configuration
              (invalid_configuration "sampler" (plain "logical sample identifier overflowed")))
            s
      | some logical_end ↦ try_submit (submission indices next_submission logical_end s) s
    ]
  ]

  unfoldable pub submit_next : List (Option (List ℕ)) → Iter → Bool × Iter
  unfolding submit_new
  submit_next [] s = (false, record s { source_exhausted = true })
  submit_next (none ∷ rest) s =
      refuses (LoaderError.coordinator_panic c.refill_panic_stage (some s.next_submission))
        (record s { batches = rest })
  submit_next (some indices ∷ rest) s = submit_new indices (record s { batches = rest })

  unfoldable pub submit_one : Iter → Bool × Iter
  unfolding try_submit submit_next
  submit_one s = elim s.pending_submission [
    | some pending ↦ try_submit pending (record s { pending_submission = none })
    | none ↦ submit_next s.batches s
  ]

  -- The condition of the loop.
  unfoldable pub has_room : Iter → Bool
  has_room s = ltb s.outstanding c.capacity && (not s.source_exhausted && not s.submission_closed)

  -- At most so many rounds of the loop.
  unfoldable pub fill : ℕ → Iter → Iter
  unfolding submit_one has_room
  fill zero s = s
  fill (suc rounds) s =
      let (submitted, s') = submit_one s in
      let rest = fill rounds s' in if has_room s then (if submitted then rest else s') else s

  unfoldable pub fill_available : Iter → Iter
  unfolding fill
  fill_available s = fill c.capacity s
