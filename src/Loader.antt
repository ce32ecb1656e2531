-- ===== src/Loader.antt =====
-- The owned loader of crates/rusttorch-data/src/loader.rs: its errors, and the stages through which a
-- batch of indices goes. The children are the serial and the worker iterator.
pub mod Serial
pub mod Tasks
pub mod Workers
pub mod Configuration
pub mod Plan
use rust_torch.Base.{ℕ, suc, String, Option, none, some, List, [], ◌∷◌}
use rust_torch.Error.{RustTorchError}
use rust_torch.Outcome.{Outcome, ok, err, panic}

-- crates/rusttorch-data/src/error.rs, with one type for the errors of all stages.
pub data PipelineError (E : Type 0) : Type 0 where
  source dataset transform collate transform_init worker_init : E → PipelineError E

pub data LoaderError (E : Type 0) : Type 0 where
  pipeline : (batch worker : Option ℕ) → PipelineError E → LoaderError E
  stream_pipeline :
      (batch : Option ℕ) (worker : ℕ) (sequence logical_id : Option ℕ)
      → PipelineError E
      → LoaderError E
  worker_panic : (worker : ℕ) (batch : Option ℕ) → LoaderError E
  stream_worker_panic : (worker : ℕ) (batch sequence logical_id : Option ℕ) → LoaderError E
  coordinator_panic : (stage : String) (batch : Option ℕ) → LoaderError E
  timeout : (batch : ℕ) → LoaderError E
  cancelled : LoaderError E
  channel_closed : (batch : ℕ) → LoaderError E
  invalid_batch_cardinality : (batch : ℕ) (worker : Option ℕ) (expected actual : ℕ) → LoaderError E
  stream_protocol : (sequence : Option ℕ) (reason : String) → LoaderError E
  memory_limit : (batch worker sequence logical_id : Option ℕ) (limit actual : ℕ) → LoaderError E
  pin_memory : (batch : ℕ) → RustTorchError → LoaderError E
  checkpoint : (reason : String) → LoaderError E
  configuration : RustTorchError → LoaderError E

-- The user's code that a loader runs: `get_batch` of the dataset, the transform at a logical sample
-- (the rest of its context is fixed for a pass), `finish` of the plan, and the pinning, if enabled.
-- Each is a function of its input: a transform or a collation that keeps a state is not modelled.
pub record Pipeline (S T B E : Type 0) : Type 0 where
  pub get_batch : List ℕ → Outcome E (List S)
  pub transform : ℕ → S → Outcome E T
  pub finish : List T → Outcome E B
  pub pin : Option (B → Outcome RustTorchError B)

-- `Result::map_err`, in another type of errors.
abbrev pub map_err {ℓ κ μ} :
    {E : Type κ} {F : Type μ} {A : Type ℓ} → (E → F) → Outcome E A → Outcome F A
map_err f (ok a) = ok a
map_err f (err e) = err (f e)
map_err f (panic m) = panic m

module _ {S T B E : Type 0} (p : Pipeline S T B E) where
  -- The pinning of a batch.
  unfoldable pub pinned : ℕ → B → Outcome (LoaderError E) B
  pinned batch value = elim p.pin [
    | none ↦ ok value
    | some pin ↦ map_err (LoaderError.pin_memory batch) (pin value)
  ]
