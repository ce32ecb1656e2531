-- ===== src/Loader/Serial.antt =====
-- `LoaderIter` of crates/rusttorch-data/src/loader.rs: a pass on the calling thread.
pub mod Pass
pub mod Resume
use rust_torch.Base.{
  ℕ, zero, suc, ◌+◌, Bool, true, false, not, Option, none, some, List, [], ◌∷◌, ◌++◌, length, ◌==◌,
  if◌then◌else◌, ltb, u64_max,
}
use rust_torch.Outcome.{Outcome, ok, err, panic, ◌>>=◌}
use rust_torch.Loader.{PipelineError, LoaderError, Pipeline}
use rust_torch.Loader.Tasks.{conclude}

-- The fields that change in a pass. `boundary_valid` is that of `CheckpointIteration`, the policy of a
-- pass with checkpoints; `batches` is `none` where the transform was not constructed.
pub record LoaderIter (E : Type 0) : Type 0 where
  pub batches : Option (List (List ℕ))
  pub has_transform : Bool
  pub transform_error : Option E
  pub next_batch : ℕ
  pub next_logical_sample : ℕ
  pub exhausted : Bool
  pub boundary_valid : Bool

abbrev pub checked_next : ℕ → Option ℕ
checked_next n = if ltb n u64_max then some (suc n) else none

module _ {S T B E : Type 0} (p : Pipeline S T B E) where
  -- An item, and the iterator after it. A panic of the call stands as its item.
  abbrev pub Turn : Type 0
  Turn = Option (Outcome (LoaderError E) B) × LoaderIter E

  -- `begin_next` and `commit_visible`.
  abbrev pub begin_next : LoaderIter E → LoaderIter E
  begin_next it = record it { boundary_valid = false }

  abbrev pub fails : LoaderError E → LoaderIter E → Turn
  fails e it = (some (err e), record it { exhausted = true })

  abbrev pub after_logical : Option ℕ → LoaderIter E → LoaderIter E
  after_logical (some n) it = record it { next_logical_sample = n }
  after_logical none it = record it { exhausted = true }

  -- `finish`, pinning and the visible boundary.
  unfoldable pub visible : Outcome (LoaderError E) B → LoaderIter E → Turn
  visible (ok b) it = elim (checked_next it.next_batch) [
    | some n ↦ (some (ok b), record it { next_batch = n; boundary_valid = true })
    | none ↦ (some (ok b), record it { exhausted = true })
  ]
  visible (err e) it = fails e it
  visible (panic m) it = (some (panic m), it)

  -- The loop over the samples, with the transformed ones so far.
  unfoldable pub transform_loop : ℕ → List S → List T → LoaderIter E → Turn
  transform_loop batch [] transformed it = visible (conclude p batch transformed) it
  transform_loop batch (sample ∷ samples) transformed it =
      let answer = p.transform it.next_logical_sample sample in
      let it' = after_logical (checked_next it.next_logical_sample) it in
      let rest = λ (t : T). transform_loop batch samples (transformed ++ t ∷ []) it' in
      if it.has_transform
      then elim answer [
        | ok t ↦ rest t
        | err e ↦ fails (LoaderError.pipeline (some batch) none (PipelineError.transform e)) it
        | panic m ↦ (some (panic m), it)
      ]
      else (none, record it { exhausted = true })

  unfoldable pub load : List ℕ → Outcome E (List S) → LoaderIter E → Turn
  load indices (ok samples) it =
      if length samples == length indices
      then transform_loop it.next_batch samples [] it
      else fails
          (LoaderError.invalid_batch_cardinality it.next_batch none (length indices)
            (length samples))
          it
  load indices (err e) it =
      fails (LoaderError.pipeline (some it.next_batch) none (PipelineError.dataset e)) it
  load indices (panic m) it = (some (panic m), it)

  abbrev pub end_pass : LoaderIter E → Turn
  end_pass it = (none, record it { exhausted = true })

  unfoldable pub next_indices : Option (List (List ℕ)) → LoaderIter E → Turn
  next_indices none it = end_pass it
  next_indices (some []) it = end_pass it
  next_indices (some (indices ∷ rest)) it =
      load indices (p.get_batch indices) (record it { batches = some rest })

  unfoldable pub first_error : Option E → LoaderIter E → Turn
  first_error (some e) it =
      fails (LoaderError.pipeline none none (PipelineError.transform_init e))
        (record it { transform_error = none })
  first_error none it = next_indices it.batches it

  unfoldable pub next : LoaderIter E → Turn
  next it = if it.exhausted then (none, it) else first_error it.transform_error (begin_next it)

  -- What a consumer sees of an item and of the calls after it: nothing ends the pass, and so does a
  -- panic.
  unfoldable pub emit :
      Option (Outcome (LoaderError E) B)
      → List (Outcome (LoaderError E) B)
      → List (Outcome (LoaderError E) B)
  emit none rest = []
  emit (some (panic m)) rest = panic m ∷ []
  emit (some (ok b)) rest = ok b ∷ rest
  emit (some (err e)) rest = err e ∷ rest

  -- At most so many calls of `next`.
  unfoldable pub drain : ℕ → LoaderIter E → List (Outcome (LoaderError E) B)
  unfolding emit
  drain zero it = []
  drain (suc calls) it = let (item, it') = next it in emit item (drain calls it')

-- `iter`: a fresh pass over these batches, by the error of constructing the transform, if it fails.
unfoldable pub iter : {E : Type 0} → Option E → List (List ℕ) → LoaderIter E
iter none batches = record {
  batches = some batches;
  has_transform = true;
  transform_error = none;
  next_batch = 0;
  next_logical_sample = 0;
  exhausted = false;
  boundary_valid = true;
}
iter (some e) batches = record {
  batches = none;
  has_transform = false;
  transform_error = some e;
  next_batch = 0;
  next_logical_sample = 0;
  exhausted = false;
  boundary_valid = true;
}

abbrev pub start : {E : Type 0} → List (List ℕ) → LoaderIter E
start batches = iter none batches
