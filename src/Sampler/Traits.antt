-- ===== src/Sampler/Traits.antt =====
-- The traits `Sampler`, `BatchSource` and `SamplerCheckpoint` of
-- crates/rusttorch-data/src/sampler.rs, each as a record of its operations, and the two adapters
-- over a factory. An iterator is the list of what it yields.
use rust_torch.Base.{ℕ, Option, List}
use rust_torch.Error.{RustTorchError}
use rust_torch.Outcome.{Outcome, ok}

-- `iter` and `set_epoch` regenerate the indices, which may panic in the storage `expect`.
pub record Sampler (S : Type 0) : Type 0 where
  pub iter : S → Outcome RustTorchError (List ℕ)
  pub exact_len : S → Option ℕ
  pub epoch : S → ℕ
  pub set_epoch : S → ℕ → Outcome RustTorchError S

pub record BatchSource (S : Type 0) : Type 0 where
  pub iter : S → Outcome RustTorchError (List (List ℕ))
  pub exact_len : S → Option ℕ
  pub epoch : S → ℕ
  pub set_epoch : S → ℕ → Outcome RustTorchError S

-- `FnSampler` and `FnBatchSource`: the factory takes the epoch.
pub record FnSource (Item : Type 0) : Type 0 where
  pub declared_len : Option ℕ
  pub current_epoch : ℕ
  pub make_iter : ℕ → List Item

unfoldable pub fn_new : {Item : Type 0} → Option ℕ → (ℕ → List Item) → FnSource Item
fn_new exact_len make_iter = record {
  declared_len = exact_len;
  current_epoch = 0;
  make_iter = make_iter;
}

unfoldable pub fn_sampler : Sampler (FnSource ℕ)
fn_sampler = record {
  iter = λ s. ok (s.make_iter s.current_epoch);
  exact_len = λ s. s.declared_len;
  epoch = λ s. s.current_epoch;
  set_epoch = λ s epoch. ok (record s { current_epoch = epoch });
}

unfoldable pub fn_batch_source : BatchSource (FnSource (List ℕ))
fn_batch_source = record {
  iter = λ s. ok (s.make_iter s.current_epoch);
  exact_len = λ s. s.declared_len;
  epoch = λ s. s.current_epoch;
  set_epoch = λ s epoch. ok (record s { current_epoch = epoch });
}
