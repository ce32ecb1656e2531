-- ===== src/Loader/Tasks.antt =====
-- `WorkerTask` of crates/rusttorch-data/src/worker.rs, and what loading the batch of a task comes to
-- when it is done by itself: the specification of both iterators.
use rust_torch.Base.{
  ℕ, suc, ◌+◌, ◌≡◌, refl, ap, none, some, List, [], ◌∷◌, length, ◌==◌, range_from, if◌then◌else◌,
}
use rust_torch.Outcome.{Outcome, ok, err, panic, ◌>>=◌}
use rust_torch.Loader.{PipelineError, LoaderError, Pipeline, map_err, pinned}

pub record WorkerTask : Type 0 where
  pub generation : ℕ
  pub batch_sequence : ℕ
  pub logical_samples : List ℕ
  pub indices : List ℕ

-- The task of a batch: its logical samples are consecutive.
abbrev pub task_of : (generation sequence logical : ℕ) → List ℕ → WorkerTask
task_of generation sequence logical indices = record {
  generation = generation;
  batch_sequence = sequence;
  logical_samples = range_from logical (length indices);
  indices = indices;
}

-- The tasks for these batches, the first with this sequence and this first logical sample.
abbrev pub numbered : (generation sequence logical : ℕ) → List (List ℕ) → List WorkerTask
numbered generation sequence logical [] = []
numbered generation sequence logical (indices ∷ rest) =
    task_of generation sequence logical indices
    ∷ numbered generation (suc sequence) (logical + length indices) rest

pub length-numbered : (g k l : ℕ) (bs : List (List ℕ)) → length (numbered g k l bs) ≡ length bs
length-numbered g k l [] = refl
length-numbered g k l (b ∷ bs) = ap suc (length-numbered g (suc k) (l + length b) bs)

-- The items of a sequence up to its first failure.
unfoldable pub until_failure {ℓ κ} :
    {E : Type κ} {A : Type ℓ} → List (Outcome E A) → List (Outcome E A)
until_failure [] = []
until_failure (ok a ∷ rest) = ok a ∷ until_failure rest
until_failure (err e ∷ rest) = err e ∷ []
until_failure (panic m ∷ rest) = panic m ∷ []

module _ {S T B E : Type 0} (p : Pipeline S T B E) where
  -- Every sample with its logical sample, in order.
  unfoldable pub transforms : List ℕ → List S → Outcome E (List T)
  transforms (l ∷ ls) (s ∷ ss) = do t ← p.transform l s; ts ← transforms ls ss; ok (t ∷ ts)
  transforms [] ss = ok []
  transforms (l ∷ ls) [] = ok []

  -- The samples of a task, as the error of a pass on the calling thread.
  unfoldable pub samples : WorkerTask → Outcome (LoaderError E) (List T)
  unfolding transforms
  samples t =
      let here = some t.batch_sequence in
      map_err (λ e. LoaderError.pipeline here none (PipelineError.dataset e))
        (p.get_batch t.indices)
      >>= λ (ss : List S).
          if length ss == length t.indices
          then map_err (λ e. LoaderError.pipeline here none (PipelineError.transform e))
              (transforms t.logical_samples ss)
          else err (
              LoaderError.invalid_batch_cardinality t.batch_sequence none (length t.indices)
                (length ss))

  unfoldable pub conclude : ℕ → List T → Outcome (LoaderError E) B
  unfolding pinned
  conclude batch transformed =
      map_err (λ e. LoaderError.pipeline (some batch) none (PipelineError.collate e))
        (p.finish transformed)
      >>= pinned p batch

  unfoldable pub item : WorkerTask → Outcome (LoaderError E) B
  unfolding samples conclude
  item t = samples t >>= conclude t.batch_sequence

-- A task whose batch loads by itself.
abbrev pub Loads : {S T B E : Type 0} → Pipeline S T B E → WorkerTask → Type 0
Loads {B = B} p t = (b : B) × (item p t ≡ ok b)
