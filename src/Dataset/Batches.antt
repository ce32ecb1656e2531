-- ===== src/Dataset/Batches.antt =====
-- `batches`, `batches_with_collate` and `BatchIterator` of crates/rusttorch-data/src/lib.rs. The
-- source is the list of what it has still to yield, and the collation a function of the samples.
pub mod Stream
use rust_torch.Base.{
  String, ℕ, zero, suc, ◌-◌, Bool, true, false, ◌||◌, Option, none, some, List, [], ◌∷◌, ◌++◌, ◌==◌,
  if◌then◌else◌,
}
use rust_torch.Error.{RustTorchError, plain}
use rust_torch.Outcome.{Outcome, ok, err, panic, ◌>>=◌, ◌>>◌, fail_if}
use rust_torch.Storage.{fits_vector, overflow_message}
use rust_torch.Sampler.Validate.{invalid_configuration}

pub record BatchIterator {ℓ κ μ} (T : Type ℓ) (B : Type κ) (E : Type μ) : Type (ℓ ⊔ κ ⊔ μ) where
  pub source : List (Outcome E T)
  pub batch_size : ℕ
  pub drop_last : Bool
  pub collate : List T → Outcome E B
  pub exhausted : Bool

-- What the inner loop comes to: a whole batch, the end of the source, or the failure of a sample.
pub data Gathered {ℓ μ} (T : Type ℓ) (E : Type μ) : Type (ℓ ⊔ μ) where
  full : List T → List (Outcome E T) → Gathered T E
  ended : List T → Gathered T E
  failed : E → List (Outcome E T) → Gathered T E
  panics : String → List (Outcome E T) → Gathered T E

-- `while samples.len() < batch_size`, with so many samples missing.
unfoldable pub gather {ℓ μ} :
    {T : Type ℓ} {E : Type μ} → ℕ → List T → List (Outcome E T) → Gathered T E
gather zero samples source = full samples source
gather (suc n) samples [] = ended samples
gather (suc n) samples (ok sample ∷ source) = gather n (samples ++ sample ∷ []) source
gather (suc n) samples (err e ∷ source) = failed e source
gather (suc n) samples (panic m ∷ source) = panics m source

-- `batch.is_err()`.
unfoldable pub is_err {κ μ} : {B : Type κ} {E : Type μ} → Outcome E B → Bool
is_err (ok b) = false
is_err (err e) = true
is_err (panic m) = false

-- An item, and the iterator after it. A panic of the call stands as its item.
abbrev pub Next {ℓ κ μ} : Type ℓ → Type κ → Type μ → Type (ℓ ⊔ κ ⊔ μ)
Next T B E = Option (Outcome E B) × BatchIterator T B E

module _ {ℓ κ μ} {T : Type ℓ} {B : Type κ} {E : Type μ} where
  unfoldable pub new :
      List (Outcome E T)
      → ℕ
      → Bool
      → (List T → Outcome E B)
      → Outcome RustTorchError (BatchIterator T B E)
  new source batch_size drop_last collate =
      fail_if (batch_size == 0)
        (invalid_configuration "batch_size" (plain "must be greater than zero"))
      >> ok (record {
        source = source;
        batch_size = batch_size;
        drop_last = drop_last;
        collate = collate;
        exhausted = false;
      })

  unfoldable pub finish : BatchIterator T B E → List T → Next T B E
  finish it samples =
      let batch = it.collate samples in
      (some batch, record it { exhausted = it.exhausted || is_err batch })

  unfoldable pub after_gather : BatchIterator T B E → Gathered T E → Next T B E
  after_gather it (full samples rest) = finish (record it { source = rest }) samples
  after_gather it (ended samples) =
      let over = record it { source = []; exhausted = true } in
      if it.drop_last then (none, over) else finish over samples
  after_gather it (failed e rest) = (some (err e), record it { source = rest; exhausted = true })
  after_gather it (panics m rest) = (some (panic m), record it { source = rest })

  -- The vector of the samples, of `sample_size` bytes each, is asked for once the first is there.
  unfoldable pub first_sample : ℕ → BatchIterator T B E → List (Outcome E T) → Next T B E
  first_sample sample_size it [] = (none, record it { exhausted = true })
  first_sample sample_size it (ok sample ∷ rest) =
      if fits_vector sample_size it.batch_size
      then after_gather it (gather (it.batch_size - 1) (sample ∷ []) rest)
      else (some (panic overflow_message), record it { source = rest })
  first_sample sample_size it (err e ∷ rest) =
      (some (err e), record it { source = rest; exhausted = true })
  first_sample sample_size it (panic m ∷ rest) = (some (panic m), record it { source = rest })

  unfoldable pub next : ℕ → BatchIterator T B E → Next T B E
  next sample_size it = if it.exhausted then (none, it) else first_sample sample_size it it.source

  -- Calls of `next` until it yields nothing or panics. Each call takes a sample or ends the iterator,
  -- so fuel above their number is enough; without it the model panics.
  unfoldable pub drain : ℕ → ℕ → BatchIterator T B E → List (Outcome E B)
  drain sample_size zero it = panic "out of fuel" ∷ []
  drain sample_size (suc fuel) it =
      let (item, it') = next sample_size it in
      let rest = drain sample_size fuel it' in
      elim item [
        | none ↦ []
        | some (panic m) ↦ panic m ∷ []
        | some (ok b) ↦ ok b ∷ rest
        | some (err e) ↦ err e ∷ rest
      ]

unfoldable pub identity_batch {ℓ μ} : {T : Type ℓ} {E : Type μ} → List T → Outcome E (List T)
identity_batch samples = ok samples
