-- ===== src/Loader/Workers/Task.antt =====
-- What a worker sends for a task, against the samples of the task.
use mathlib.Core.List.{append_assoc, append-nil}
use rust_torch.Base.{
  none, some, ℕ, String, ◌≢◌, ◌≡◌, refl, sym, ap, ◌∙◌, Bool, true, false, List, [], ◌∷◌, ◌++◌,
  length, ◌==◌, inl, inr, if◌then◌else◌,
}
use rust_torch.Outcome.{Outcome, Outcome-cases, ok, err, panic, ◌>>=◌}
use rust_torch.Loader.{PipelineError, LoaderError, map_err, Pipeline, pinned}
use rust_torch.Loader.Tasks.{WorkerTask, transforms, samples, conclude}
use rust_torch.Loader.Workers.{
  WorkerBatch, WorkerFailure, WorkerMessage, transform_samples, after_get, run_task,
}
use rust_torch.Loader.Workers.Submit.{Settings}
use rust_torch.Loader.Workers.Iter.{collate}

-- Where this is a failure, it has no value.
pub err-not-ok : {A E : Type 0} (o : Outcome E A) (e : E) (a : A) → o ≡ err e → o ≢ ok a
err-not-ok o e a h k = cc

panic-not-ok : {A E : Type 0} (o : Outcome E A) (m : String) (a : A) → o ≡ panic m → o ≢ ok a
panic-not-ok o m a h k = cc

if-ok :
    {A E F : Type 0} (b : Bool) (e : E) (f : F) {x : Outcome E A} {y : Outcome F A} {a : A}
    → (x ≡ ok a → y ≡ ok a)
    → (if b then x else err e) ≡ ok a
    → (if b then y else err f) ≡ ok a
if-ok true e f k h = k h
if-ok false e f k h = cc

module _ {S T B E : Type 0} (p : Pipeline S T B E) where
  -- The samples of a worker, after those that are done.
  abbrev reported : Outcome E (List T) → List T → Outcome (WorkerFailure E) (List T)
  reported (ok ys) done = ok (done ++ ys)
  reported (err e) done = err (WorkerFailure.transform e)
  reported (panic m) done = err WorkerFailure.panics

  reported-cons :
      (o : Outcome E (List T)) (t : T) (done : List T)
      → reported o (done ++ t ∷ []) ≡ reported (o >>= λ ys. ok (t ∷ ys)) done
  reported-cons (ok ys) t done = ap ok (append_assoc done (t ∷ []) ys)
  reported-cons (err e) t done = refl
  reported-cons (panic m) t done = refl

  transform_samples-transforms :
      (ss : List S) (ls : List ℕ) (done : List T)
      → transform_samples p ss ls done ≡ reported (transforms p ls ss) done
  unfolding transform_samples transforms
  transform_samples-transforms [] [] done = ap ok (sym (append-nil done))
  transform_samples-transforms [] (l ∷ ls) done = ap ok (sym (append-nil done))
  transform_samples-transforms (s ∷ ss) [] done = ap ok (sym (append-nil done))
  transform_samples-transforms (s ∷ ss) (l ∷ ls) done = elim (Outcome-cases (p.transform l s)) [
    | inl (t, e) ↦
        rw (transform_samples, e)
          (transform_samples-transforms ss ls (done ++ t ∷ [])
            ∙ reported-cons (transforms p ls ss) t done)
    | inr (inl (e, h')) ↦ rw (transform_samples, h')
    | inr (inr (m, e)) ↦ rw (transform_samples, e)
  ]

  map_err-of_reported :
      (o : Outcome E (List T)) (f : E → LoaderError E) {xs : List T}
      → reported o [] ≡ ok xs
      → map_err f o ≡ ok xs
  map_err-of_reported (ok ys) f h = cc
  map_err-of_reported (err e) f h = cc
  map_err-of_reported (panic m) f h = cc

  reported-of_map_err :
      (o : Outcome E (List T)) (f : E → LoaderError E) {xs : List T}
      → map_err f o ≡ ok xs
      → reported o [] ≡ ok xs
  reported-of_map_err (ok ys) f h = cc
  reported-of_map_err (err e) f h = cc
  reported-of_map_err (panic m) f h = cc

  samples-of_after_get :
      (t : WorkerTask) (got : Outcome E (List S)) {xs : List T}
      → p.get_batch t.indices ≡ got
      → after_get p t got ≡ ok xs
      → samples p t ≡ ok xs
  unfolding after_get samples
  samples-of_after_get t (ok ss) e h = rw e (
      if-ok (length ss == length t.indices) _ _
        (λ k.
          map_err-of_reported (transforms p t.logical_samples ss) _
            (sym (transform_samples-transforms ss t.logical_samples []) ∙ k))
        h)
  samples-of_after_get t (err x) e h = cc
  samples-of_after_get t (panic m) e h = cc

  after_get-of_samples :
      (t : WorkerTask) (got : Outcome E (List S)) {xs : List T}
      → p.get_batch t.indices ≡ got
      → samples p t ≡ ok xs
      → after_get p t got ≡ ok xs
  unfolding after_get samples
  after_get-of_samples t (ok ss) e h =
      if-ok (length ss == length t.indices) _ _
        (λ k.
          transform_samples-transforms ss t.logical_samples []
          ∙ reported-of_map_err (transforms p t.logical_samples ss) _ k)
        (rw (samples, e) at h)
  after_get-of_samples t (err x) e h = absurd (
      err-not-ok (samples p t)
        (LoaderError.pipeline (some t.batch_sequence) none (PipelineError.dataset x)) _
        (rw (samples, e) refl) h)
  after_get-of_samples t (panic m) e h =
      absurd (panic-not-ok (samples p t) m _ (rw (samples, e) refl) h)

  -- The batch that a worker sends for a task of these samples.
  abbrev pub batch_of : WorkerTask → List T → WorkerBatch T
  batch_of t xs = record {
    generation = t.generation;
    batch_sequence = t.batch_sequence;
    samples = xs;
  }

  pub run_task-of_samples :
      (t : WorkerTask) {xs : List T}
      → samples p t ≡ ok xs
      → run_task p t ≡ ok (WorkerMessage.batch (batch_of t xs))
  unfolding run_task
  run_task-of_samples t h = rw (run_task, after_get-of_samples t (p.get_batch t.indices) refl h)

  pub samples-of_run_task :
      (t : WorkerTask) {b : WorkerBatch T}
      → run_task p t ≡ ok (WorkerMessage.batch b)
      → (samples p t ≡ ok b.samples) × (b.batch_sequence ≡ t.batch_sequence)
  unfolding run_task
  samples-of_run_task t {b} h = elim (Outcome-cases (after_get p t (p.get_batch t.indices))) [
    | inl (xs, e) ↦
        let k : batch_of t xs ≡ b = cc (rw (run_task, e) at h) in
        (
          samples-of_after_get t _ refl e ∙ ap (λ (u : WorkerBatch T). ok u.samples) k,
          ap (λ (u : WorkerBatch T). u.batch_sequence) (sym k),
        )
    | inr (inl (e, h')) ↦ absurd (err-not-ok (run_task p t) e _ (rw (run_task, h')) h)
    | inr (inr (m, e)) ↦ absurd (panic-not-ok (run_task p t) m _ (rw (run_task, e)) h)
  ]

  -- Collation by the consumer of a worker's samples, and on the calling thread.
  pub conclude-of_collate :
      (c : Settings) (k : ℕ) (xs : List T) {a : B}
      → (collate p c k (p.finish xs) >>= pinned p k) ≡ ok a
      → conclude p k xs ≡ ok a
  unfolding conclude collate
  conclude-of_collate c k xs h = elim (Outcome-cases (p.finish xs)) [
    | inl (b, e) ↦ rw (conclude, e) (rw (collate, e) at h)
    | inr (inl (e, h')) ↦ absurd (
        err-not-ok (collate p c k (p.finish xs) >>= pinned p k)
          (LoaderError.pipeline (some k) none (PipelineError.collate e)) _ (rw (collate, h')) h)
    | inr (inr (m, e)) ↦ absurd (
        err-not-ok (collate p c k (p.finish xs) >>= pinned p k)
          (LoaderError.coordinator_panic c.finish_panic_stage (some k)) _ (rw (collate, e)) h)
  ]

  pub collate-of_conclude :
      (c : Settings) (k : ℕ) (xs : List T) {a : B}
      → conclude p k xs ≡ ok a
      → (collate p c k (p.finish xs) >>= pinned p k) ≡ ok a
  unfolding conclude collate
  collate-of_conclude c k xs h = elim (Outcome-cases (p.finish xs)) [
    | inl (b, e) ↦ rw (collate, e) (rw (conclude, e) at h)
    | inr (inl (e, h')) ↦ absurd (
        err-not-ok (conclude p k xs) (LoaderError.pipeline (some k) none (PipelineError.collate e))
          _ (rw (conclude, h')) h)
    | inr (inr (m, e)) ↦ absurd (panic-not-ok (conclude p k xs) m _ (rw (conclude, e)) h)
  ]
